-- ===== src/Bridge/Minting/Once.antt =====
-- When `MintService` of bridge/minting.py is safe: what it relies on, and what the ledger knows of the
-- mints that may land.
pub mod Rules
pub mod Pass
pub mod Sends
use obsidion.Prelude.{
  ℕ, zero, suc, ◌≡◌, ◌≢◌, ◌≤◌, refl, sym, ◌∙◌, ap, subst, ◌⊎◌, inl, inr, Bool, true, false, List,
  [], ◌∷◌, Option, none, some, arith, All, All-map, Bool-cases, Option-cases, drop,
}
use obsidion.Prelude.Int.{ℤ}
use obsidion.Prelude.Eq.{◌=?◌, ℕ_eq, List_eq, =?-eq, =?-ne, =?-refl}
use obsidion.Prelude.Result.{Result, ok, err, ok-injective}
use obsidion.Table.{lookup}
use obsidion.Table.Laws.{lookup-update, IsKeyed}
use obsidion.Bridge.Event.{Text, State, State_eq, ready, in_flight, done, Event}
use obsidion.Bridge.Ledger.{BridgeLedger, Events, set_state}
use obsidion.Bridge.Ledger.Forward.{is_forward, Extends}
use obsidion.Bridge.Minting.{Cluster, memo_for}
use obsidion.Bridge.Minting.Runtime.{Machine, Run, goes_on, raises, dies}

-- What the bridge relies on. `can_land` counts the mints with a memo that are there or may still
-- land: a `mint` that raised may have sent its transaction. A mint carries its memo, at most once and
-- no other; nobody else mints with the bridge's memos, so that on its own the cluster only lands or
-- drops what was sent; and `find_mint` gives no signature only if there is no mint with the memo and
-- none that may still land, and raises when it cannot tell.
pub record IsCluster (W : Type 0) (solana : Cluster W) (can_land : Text → W → ℕ) : Type 0 where
  pub mints_once :
      (destination : Text) (amount : ℤ) (memo : Text) (w : W)
      → can_land memo ((solana.minter.mint destination amount memo w).1) ≤ suc (can_land memo w)
  pub mints_no_other :
      (destination : Text) (amount : ℤ) (memo other : Text) (w : W)
      → memo ≢ other
      → can_land other ((solana.minter.mint destination amount memo w).1) ≤ can_land other w
  pub sends_nothing :
      (n : ℕ) (memo : Text) (w : W) → can_land memo (solana.later n w) ≤ can_land memo w
  pub finds_none :
      (memo : Text) (w : W) → solana.minter.find_mint memo w ≡ ok none → can_land memo w ≡ 0
  pub finds_signature :
      (memo : Text) (w : W) → solana.minter.find_mint memo w ≡ ok (some []) → can_land memo w ≡ 0

pub memo_for-injective : (key other : Text) → memo_for key ≡ memo_for other → key ≡ other
unfolding memo_for
memo_for-injective key other same = ap (λ memo. drop 12 memo) same

-- The ledger says that a mint may have been sent.
abbrev pub IsSent : Text → BridgeLedger → Type 0
IsSent key l =
    (row : Event) × (lookup key l.events ≡ some row)
    × ((row.state ≡ in_flight) ⊎ (row.state ≡ done))

sent_stays :
    (s t : State)
    → is_forward s t ≡ true
    → (s ≡ in_flight) ⊎ (s ≡ done)
    → (t ≡ in_flight) ⊎ (t ≡ done)
unfolding is_forward
sent_stays s t h (inl e) =
    let h' = rw e at h in
    elim (Bool-cases (t =? in_flight)) [
      | inl flies ↦ inl ((State_eq.beq_iff t in_flight).0 flies)
      | inr other ↦ inr ((State_eq.beq_iff t done).0 (rw other at h'))
    ]
sent_stays s t h (inr e) = inr ((State_eq.beq_iff t done).0 (rw e at h))

pub IsSent-Extends :
    (key : Text) (l l' : BridgeLedger) → Extends l.events l'.events → IsSent key l → IsSent key l'
IsSent-Extends key l l' (keeps, _, _) (row, found, sent) =
    let (row', found', (later, _)) = keeps key row found in
    let (_, _, _, _, forward) = later in
    (row', found', sent_stays row.state row'.state forward sent)

-- Waiting in the queue.
abbrev pub IsReady : Text → BridgeLedger → Type 0
IsReady key l = (row : Event) × (lookup key l.events ≡ some row) × (row.state ≡ ready)

module _ {W : Type 0} (can_land : Text → W → ℕ) where
  -- One row for each key, and no mint to come, or one at most that the ledger knows of.
  abbrev pub Safe : BridgeLedger → W → Type 0
  Safe l w =
      IsKeyed l.events
      × ((key : Text)
          → (can_land (memo_for key) w ≡ 0) ⊎ ((can_land (memo_for key) w ≤ 1) × IsSent key l))

  pub Safe-Extends :
      (l l' : BridgeLedger) (w : W) → Extends l.events l'.events → Safe l w → Safe l' w
  Safe-Extends l l' w extends (keyed, counts) = (
    extends.1 keyed,
    λ key. elim (counts key) [
      | inl zero_mints ↦ inl zero_mints
      | inr (one, sent) ↦ inr (one, IsSent-Extends key l l' extends sent)
    ],
  )

  -- A cluster on which no mint more can land.
  pub Safe-fewer :
      (l : BridgeLedger) (w w' : W)
      → ((memo : Text) → can_land memo w' ≤ can_land memo w)
      → Safe l w
      → Safe l w'
  Safe-fewer l w w' fewer (keyed, counts) = (
    keyed,
    λ key. elim (counts key) [
      | inl zero_mints ↦ (let k = fewer (memo_for key) in inl (omega (arith, k, zero_mints)))
      | inr (one, sent) ↦ (let k = fewer (memo_for key) in inr (omega (arith, k, one), sent))
    ],
  )

  -- A key that is still in the queue has no mint.
  pub Safe-IsReady :
      (key : Text) (l : BridgeLedger) (w : W)
      → Safe l w
      → IsReady key l
      → can_land (memo_for key) w ≡ 0
  Safe-IsReady key l w (keyed, counts) (row, found, waiting) = elim (counts key) [
    | inl zero_mints ↦ zero_mints
    | inr (one, (row', found', sent)) ↦
        let same : row ≡ row' = let e : some row ≡ some row' = sym found ∙ found' in cc in
        let e : row'.state ≡ ready = ap (λ r. r.state) (sym same) ∙ waiting in
        elim sent [
          | inl flies ↦ let clash : ready ≡ in_flight = sym e ∙ flies in cc
          | inr ended ↦ let clash : ready ≡ done = sym e ∙ ended in cc
        ]
  ]

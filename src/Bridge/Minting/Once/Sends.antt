-- ===== src/Bridge/Minting/Once/Sends.antt =====
-- `_mint_one`, and a whole pass of `run_once`, keep the bridge safe.
use obsidion.Prelude.{
  ℕ, zero, suc, ◌≡◌, ◌≢◌, ◌≤◌, refl, sym, ◌∙◌, ap, subst, ◌⊎◌, inl, inr, true, false, List, [], ◌∷◌,
  map, none, some, arith, All, Bool-cases, ◌&&◌,
}
use obsidion.Prelude.Int.{ℤ}
use obsidion.Prelude.Eq.{◌=?◌, ℕ_eq, List_eq, =?-eq, =?-refl}
use obsidion.Prelude.Result.{Result, ok, err, ok-injective, Result-cases, >>=-eq-ok}
use obsidion.Table.{lookup}
use obsidion.Table.Laws.{lookup-update, IsKeyed}
use obsidion.Bridge.Event.{
  Text, State, State_eq, ready, in_flight, deposit, Kind, same_kind, Payload,
}
use obsidion.Bridge.Ledger.{
  BridgeLedger, Events, set_state, mark_in_flight, mark_done, require_state, can_send, select,
  what_to_do, actionable, outstanding,
}
use obsidion.Bridge.Ledger.Forward.Methods.{mark_in_flight-Extends, mark_done-Extends}
use obsidion.Bridge.Ledger.Forward.Runs.{Found, select-Found}
use obsidion.Bridge.Minting.{
  Cluster, MintReport, empty_report, is_blocked, memo_for, destination_of, mint_as, mint_one,
  mint_row, mint_all, mint_unless_blocked, run_once,
}
use obsidion.Bridge.Minting.Runtime.{Machine, ◌>>=◌, ◌>>◌, give, raise, ledger_now, on_ledger}
use obsidion.Bridge.Minting.Once.{
  IsCluster, memo_for-injective, IsSent, IsReady, Safe, Safe-Extends, Safe-IsReady,
}
use obsidion.Bridge.Minting.Once.Pass.{SafeStill, Safe-later, resolve_all-Safe}
use obsidion.Bridge.Minting.Once.Rules.{
  Post, Post-continue, Post-on_ledger, Post-on_cluster, mark_in_flight-other, mark_done-other,
}

-- Rows that are in the queue.
abbrev AreReady : List (Text × ℤ × Payload) → BridgeLedger → Type 0
AreReady rows l = All (λ r. IsReady r.0 l) rows

abbrev Misses : Text → List (Text × ℤ × Payload) → Type 0
Misses key rows = All (λ r. key ≢ r.0) rows

abbrev AreApart : List (Text × ℤ × Payload) → Type 0
AreApart [] = Unit
AreApart (r ∷ rows) = Misses r.0 rows × AreApart rows

AreReady-other :
    (key : Text) (rows : List (Text × ℤ × Payload)) (l l' : BridgeLedger)
    → ((other : Text) → key ≢ other → lookup other l'.events ≡ lookup other l.events)
    → Misses key rows
    → AreReady rows l
    → AreReady rows l'
AreReady-other key [] l l' same misses h = tt
AreReady-other key (r ∷ rows) l l' same (apart, misses) ((row, found, waits), h) =
    ((row, same r.0 apart ∙ found, waits), AreReady-other key rows l l' same misses h)

flies_after :
    (key : Text) (l l' : BridgeLedger)
    → IsReady key l
    → mark_in_flight key l ≡ ok l'
    → IsSent key l'
unfolding mark_in_flight set_state
flies_after key l l' (row, found, waits) h =
    let (s, checked, h1) = >>=-eq-ok (require_state key can_send l) _ h in
    (
      record row { state = in_flight },
      ap (λ z. lookup key z.events) (sym (ok-injective h1))
          ∙ lookup-update key key (λ r. record r { state = in_flight }) l.events
          ∙ (rw (=?-refl key, found) refl),
      inl refl,
    )

Found-Misses :
    (state : State) (key : Text) (events rows : Events)
    → lookup key events ≡ none
    → All (Found state events) rows
    → Misses key (map what_to_do rows)
Found-Misses state key events [] free h = tt
Found-Misses state key events ((other, row) ∷ rows) free ((found, _), h) = (
  λ same. let clash : none ≡ some row = sym free ∙ (rw same found) in cc,
  Found-Misses state key events rows free h,
)

at_most_once :
    {S : Type 0} (before after : ℕ)
    → after ≤ suc before
    → before ≡ 0
    → S
    → (after ≡ 0) ⊎ ((after ≤ 1) × S)
at_most_once before zero h e s = inl refl
at_most_once before (suc after) h e s = inr (omega arith, s)

-- What `select` answers: rows under different keys, all of them there.
select-AreApart :
    (kind : Kind) (state : State) (events : Events)
    → IsKeyed events
    → AreApart (map what_to_do (select kind state events))
unfolding select
select-AreApart kind state [] keyed = tt
select-AreApart kind state ((key, row) ∷ events) (free, keyed) =
    let later = select-AreApart kind state events keyed in
    let misses =
      Found-Misses state key events (select kind state events) free
        (select-Found kind state events keyed) in
    elim (Bool-cases (same_kind row.kind kind && (row.state =? state))) [
      | inl e ↦ rw e (misses, later)
      | inr e ↦ rw e later
    ]

Found-AreReady :
    (l : BridgeLedger) (rows : Events)
    → All (Found ready l.events) rows
    → AreReady (map what_to_do rows) l
Found-AreReady l [] h = tt
Found-AreReady l ((key, row) ∷ rows) ((found, waits), h) =
    ((row, found, waits), Found-AreReady l rows h)

module _ {W : Type 0} (solana : Cluster W) (can_land : Text → W → ℕ)
    (cluster : IsCluster W solana can_land) where
  still_none :
      (memo : Text) (n : ℕ) (w : W) → can_land memo w ≡ 0 → can_land memo (solana.later n w) ≡ 0
  still_none memo n w absent = let k = cluster.sends_nothing n memo w in omega (arith, k, absent)

  -- One mint under a key that has none.
  Safe-mint :
      (key destination : Text) (amount : ℤ) (l : BridgeLedger) (w : W)
      → can_land (memo_for key) w ≡ 0
      → IsSent key l
      → Safe can_land l w
      → Safe can_land l ((solana.minter.mint destination amount (memo_for key) w).1)
  Safe-mint key destination amount l w absent sent (keyed, counts) = (
    keyed,
    λ other. elim (Bool-cases (key =? other)) [
      | inl e ↦
          let same = =?-eq key other e in
          let once = cluster.mints_once destination amount (memo_for key) w in
          subst
            (λ z.
              (can_land (memo_for z) ((solana.minter.mint destination amount (memo_for key) w).1)
                ≡ 0)
              ⊎ ((can_land (memo_for z) ((solana.minter.mint destination amount (memo_for key) w).1)
                    ≤ 1)
                  × IsSent z l))
            same (at_most_once _ _ once absent sent)
      | inr e ↦
          let apart : memo_for key ≢ memo_for other = λ same.
            let same_key = memo_for-injective key other same in
            let clash : true ≡ false = sym (rw same_key (=?-refl other)) ∙ e in cc in
          let fewer =
            cluster.mints_no_other destination amount (memo_for key) (memo_for other) w apart in
          elim (counts other) [
            | inl none_yet ↦ inl (omega (arith, fewer, none_yet))
            | inr (one, row) ↦ inr (omega (arith, fewer, one), row)
          ]
    ],
  )

  module _ (rows : List (Text × ℤ × Payload)) where
    -- Safe, with the rest of the queue as it was.
    abbrev StillReady : MintReport → BridgeLedger → W → Type 0
    StillReady report l w = Safe can_land l w × AreReady rows l

    mint_as-Safe :
        (key : Text) (answer : Result Text Text) (report : MintReport) (m : Machine W)
        → Misses key rows
        → Safe can_land m.ledger m.cluster
        → AreReady rows m.ledger
        → Post can_land StillReady (mint_as solana key answer report m)
    unfolding mint_as ◌>>=◌ ◌>>◌ give
    mint_as-Safe key (err reason) report m misses safe queue = (safe, queue)
    mint_as-Safe key (ok []) report m misses safe queue = (safe, queue)
    mint_as-Safe key (ok (c ∷ signature)) report m misses safe queue =
        let Q : Unit → BridgeLedger → W → Type 0 = λ u l w. Safe can_land l w × AreReady rows l in
        Post-continue can_land Q StillReady (on_ledger (mark_done key (c ∷ signature)) m) _
          (Post-on_ledger can_land Q (mark_done key (c ∷ signature)) m safe (λ l h. (
            Safe-Extends can_land m.ledger l m.cluster
                (mark_done-Extends key (c ∷ signature) m.ledger l h) safe,
            AreReady-other key rows m.ledger l
                (λ other apart. mark_done-other key (c ∷ signature) other m.ledger l apart h) misses
                queue,
          )))
          (λ u n h. h)

    mint_one-Safe :
        (key : Text) (amount : ℤ) (destination : Text) (report : MintReport) (m : Machine W)
        → Misses key rows
        → IsReady key m.ledger
        → Safe can_land m.ledger m.cluster
        → AreReady rows m.ledger
        → Post can_land StillReady (mint_one solana key amount destination report m)
    unfolding mint_one ◌>>=◌ ◌>>◌
    mint_one-Safe key amount destination report m misses waits safe queue =
        let Flies : Unit → BridgeLedger → W → Type 0 = λ u l w.
          Safe can_land l w × AreReady rows l × (can_land (memo_for key) w ≡ 0) × IsSent key l in
        let Sent : Result Text Text → BridgeLedger → W → Type 0 =
          λ answer l w. Safe can_land l w × AreReady rows l in
        Post-continue can_land Flies StillReady _ _
          (Post-on_ledger can_land Flies (mark_in_flight key) m safe (λ l h. (
            Safe-Extends can_land m.ledger l m.cluster (mark_in_flight-Extends key m.ledger l h)
                safe,
            AreReady-other key rows m.ledger l
                (λ other apart. mark_in_flight-other key other m.ledger l apart h) misses queue,
            Safe-IsReady can_land key m.ledger m.cluster safe waits,
            flies_after key m.ledger l waits h,
          )))
          (λ u n (safe1, queue1, absent, sent).
            Post-continue can_land Sent StillReady _ _
              (Post-on_cluster can_land Sent
                (λ w. Safe can_land n.ledger w × (can_land (memo_for key) w ≡ 0)) solana.later
                (solana.minter.mint destination amount (memo_for key)) n safe1
                (λ later. (
                  Safe-later solana can_land cluster later n.ledger n.cluster safe1,
                  still_none (memo_for key) later n.cluster absent,
                ))
                (λ w (safe2, none_yet).
                  (Safe-mint key destination amount n.ledger w none_yet sent safe2, queue1)))
              (λ answer k (safe2, queue2). mint_as-Safe key answer report k misses safe2 queue2))

    mint_row-Safe :
        (r : Text × ℤ × Payload) (report : MintReport) (m : Machine W)
        → Misses r.0 rows
        → IsReady r.0 m.ledger
        → Safe can_land m.ledger m.cluster
        → AreReady rows m.ledger
        → Post can_land StillReady (mint_row solana r report m)
    unfolding mint_row raise
    mint_row-Safe (key, amount, payload) report m misses waits safe queue =
        elim (Result-cases (destination_of payload)) [
          | inl (destination, e) ↦
              rw (mint_row, e)
                (mint_one-Safe key amount destination report m misses waits safe queue)
          | inr (raised, e) ↦ rw (mint_row, e) safe
        ]

  mint_all-Safe :
      (rows : List (Text × ℤ × Payload)) (report : MintReport) (m : Machine W)
      → AreApart rows
      → Safe can_land m.ledger m.cluster
      → AreReady rows m.ledger
      → Post can_land (SafeStill solana can_land cluster) (mint_all solana rows report m)
  unfolding mint_all ◌>>=◌ give
  mint_all-Safe [] report m apart safe queue = safe
  mint_all-Safe (r ∷ rows) report m (misses, apart) safe (waits, queue) =
      Post-continue can_land (StillReady rows) (SafeStill solana can_land cluster) _ _
        (mint_row-Safe rows r report m misses waits safe queue)
        (λ report' n (safe1, queue1). mint_all-Safe rows report' n apart safe1 queue1)

  pub run_once-Safe :
      (m : Machine W)
      → Safe can_land m.ledger m.cluster
      → Post can_land (SafeStill solana can_land cluster) (run_once solana m)
  unfolding run_once ◌>>=◌ ledger_now mint_unless_blocked give actionable
  run_once-Safe m safe =
      Post-continue can_land (SafeStill solana can_land cluster) (SafeStill solana can_land cluster)
        _ _
        (resolve_all-Safe solana can_land cluster (outstanding deposit m.ledger) empty_report m
          safe)
        (λ report n safe1. elim (Bool-cases (is_blocked report)) [
          | inl e ↦ rw e safe1
          | inr e ↦ rw e (
              mint_all-Safe (actionable deposit n.ledger) report n
                (select-AreApart deposit ready n.ledger.events safe1.0) safe1
                (Found-AreReady n.ledger (select deposit ready n.ledger.events)
                  (select-Found deposit ready n.ledger.events safe1.0)))
        ])

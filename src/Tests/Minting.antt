-- ===== src/Tests/Minting.antt =====
-- A bridge whose mints time out and land later, and which dies and recovers.
use obsidion.Bridge.Minting.Runtime.{◌>>=◌, ledger_now, give, on_cluster, on_ledger, ◌>>◌}
use obsidion.Table.{lookup, put, update}
use obsidion.Prelude.{
  ℕ, suc, ◌+◌, ◌==◌, ◌++◌, Option-cases, ◌≡◌, ◌≢◌, ◌≤◌, refl, ◌⊎◌, inl, inr, List, [], ◌∷◌, Option,
  some, none, if◌then◌else◌, arith, Bool-cases,
}
use obsidion.Prelude.Eq.{ℕ_eq, List_eq, ◌=?◌, =?-ne}
use obsidion.Prelude.Result.{Result, ok, err, ok-injective}
use obsidion.Bridge.Event.{Text, codes, deposit_key, digits, str}
use obsidion.Bridge.Ledger.{
  open_ledger, outstanding, select, promote_confirmed, promote_rows, record_deposit, record_event,
  is_deep, actionable, mark_done, mark_in_flight, require_state, set_outcome, set_state, state_of,
}
use obsidion.Bridge.Ledger.Steps.{sees_deposit, promotes, perform}
use obsidion.Bridge.Minting.{
  Cluster, memo_for, run_once, resolve_all, mint_all, mint_as, mint_one, mint_row,
  mint_unless_blocked, resolve_as, return_to_queue,
}
use obsidion.Bridge.Minting.Once.{IsCluster, IsSent}
use obsidion.Bridge.Minting.Runs.{Happening, pass, call, waits, live, live-mints_once, happen}
use obsidion.Tests.Bridge.{seen, event_key}

-- Memos of transactions that are on their way, and of those that have landed.
abbrev Pending : Type 0
Pending = List Text × List Text

abbrev count : Text → List Text → ℕ
count memo [] = 0
count memo (m ∷ memos) = if m =? memo then suc (count memo memos) else count memo memos

abbrev landed : Text → Pending → ℕ
landed memo w = count memo w.1

abbrev coming : Text → Pending → ℕ
coming memo w = count memo w.0 + count memo w.1

abbrev look_up : Text → List Text → Option Text
look_up memo [] = none
look_up memo (m ∷ memos) = if m =? memo then some (codes "found") else look_up memo memos

-- Everything lands at the time 99.
abbrev land : ℕ → Pending → Pending
land n w = if n == 99 then ([], w.0 ++ w.1) else w

-- A mint always times out, and its transaction is on its way; a lookup raises while it is.
abbrev careful : Text → Pending → Result Text (Option Text)
careful memo w = elim (look_up memo w.0) [
  | none ↦ ok (look_up memo w.1)
  | some signature ↦ err (codes "not final")
]

abbrev slow : Cluster Pending
slow = record {
  minter = record {
    mint = λ destination amount memo w. (err (codes "timeout"), (memo ∷ w.0, w.1));
    find_mint = careful;
  };
  later = land;
}

-- The same cluster, with a lookup that truthfully says what has landed.
abbrev hasty : Cluster Pending
hasty = record {
  minter = record {
    mint = λ destination amount memo w. (err (codes "timeout"), (memo ∷ w.0, w.1));
    find_mint = λ memo w. ok (look_up memo w.1);
  };
  later = land;
}

none_counted : (memo : Text) (w : List Text) → look_up memo w ≡ none → count memo w ≡ 0
none_counted memo [] h = refl
none_counted memo (m ∷ w) h = elim (Bool-cases (m =? memo)) [
  | inl e ↦ let clash = rw e at h in cc
  | inr e ↦ rw e (none_counted memo w (rw e at h))
]

never_blank : (memo : Text) (w : List Text) → look_up memo w ≢ some []
never_blank memo [] h = cc
never_blank memo (m ∷ w) h = elim (Bool-cases (m =? memo)) [
  | inl e ↦ let clash : some (codes "found") ≡ some [] = rw e at h in cc
  | inr e ↦ never_blank memo w (rw e at h)
]

count-append : (memo : Text) (v w : List Text) → count memo (v ++ w) ≡ count memo v + count memo w
count-append memo [] w = omega arith
count-append memo (m ∷ v) w = elim (Bool-cases (m =? memo)) [
  | inl e ↦ rw e (let k = count-append memo v w in omega (arith, k))
  | inr e ↦ rw e (count-append memo v w)
]

land-coming : (n : ℕ) (memo : Text) (w : Pending) → coming memo (land n w) ≤ coming memo w
land-coming n memo w = elim (Bool-cases (n == 99)) [
  | inl e ↦ rw e (let k = count-append memo w.0 w.1 in omega (arith, k))
  | inr e ↦ rw e (omega arith)
]

careful-none : (memo : Text) (w : Pending) → careful memo w ≡ ok none → coming memo w ≡ 0
careful-none memo w h = elim (Option-cases (look_up memo w.0)) [
  | inl e ↦
      (let waiting = none_counted memo w.0 e in
        let there = none_counted memo w.1 (ok-injective (rw (careful, e) at h)) in
        omega (arith, waiting, there))
  | inr (signature, e) ↦ let clash = rw (careful, e) at h in cc
]

careful-signature : (memo : Text) (w : Pending) → careful memo w ≢ ok (some [])
careful-signature memo w h = elim (Option-cases (look_up memo w.0)) [
  | inl e ↦ never_blank memo w.1 (ok-injective (rw (careful, e) at h))
  | inr (signature, e) ↦ let clash = rw (careful, e) at h in cc
]

slow-IsCluster : IsCluster Pending slow coming
slow-IsCluster = record {
  mints_once = λ destination amount memo w. ground arith;
  mints_no_other =
      λ destination amount memo other w apart. rw (=?-ne memo other apart) (omega arith);
  sends_nothing = land-coming;
  finds_none = careful-none;
  finds_signature = λ memo w h. absurd (careful-signature memo w h);
}

-- The mint times out, a lookup cannot tell, the mint lands, and a pass dies before the ledger hears
-- of it.
abbrev history : List Happening
history =
    call (sees_deposit seen)
    ∷ call (promotes 40)
    ∷ pass 10
    ∷ pass 10
    ∷ waits 99
    ∷ pass 1
    ∷ pass 10
    ∷ []

abbrev unseen : Pending
unseen = ([], [])

live-mints_once_example :
    let s = live slow history (open_ledger 20, unseen) in
    (landed (memo_for event_key) s.1 ≤ 1)
    × ((landed (memo_for event_key) s.1 ≡ 0) ⊎ IsSent event_key s.0)
live-mints_once_example =
    live-mints_once slow coming slow-IsCluster landed history 20 unseen event_key
      (λ memo v. omega arith) (λ other. refl)

minted_once : (live slow history (open_ledger 20, unseen)).1 ≡ ([], memo_for event_key ∷ [])
unfolding live obsidion.Bridge.Minting.Runs.happen obsidion.Bridge.Minting.run_once
    obsidion.Bridge.Minting.Runtime.◌>>=◌ obsidion.Bridge.Minting.Runtime.ledger_now
    obsidion.Bridge.Minting.resolve_all obsidion.Bridge.Ledger.outstanding
    obsidion.Bridge.Ledger.select obsidion.Bridge.Ledger.Steps.perform
    obsidion.Bridge.Ledger.promote_confirmed obsidion.Bridge.Ledger.promote_rows
    obsidion.Bridge.Ledger.record_deposit obsidion.Bridge.Ledger.record_event obsidion.Table.lookup
    open_ledger obsidion.Table.put obsidion.Bridge.Ledger.is_deep obsidion.Bridge.Event.deposit_key
    obsidion.Bridge.Event.digits obsidion.Bridge.Event.str obsidion.Bridge.Ledger.actionable
    obsidion.Bridge.Ledger.mark_done obsidion.Bridge.Ledger.mark_in_flight
    obsidion.Bridge.Ledger.require_state obsidion.Bridge.Ledger.set_outcome
    obsidion.Bridge.Ledger.set_state obsidion.Bridge.Ledger.state_of
    obsidion.Bridge.Minting.Runtime.give obsidion.Bridge.Minting.Runtime.on_cluster
    obsidion.Bridge.Minting.Runtime.on_ledger obsidion.Bridge.Minting.Runtime.◌>>◌ memo_for
    obsidion.Bridge.Minting.mint_all obsidion.Bridge.Minting.mint_as
    obsidion.Bridge.Minting.mint_one obsidion.Bridge.Minting.mint_row
    obsidion.Bridge.Minting.mint_unless_blocked obsidion.Bridge.Minting.resolve_as
    obsidion.Bridge.Minting.return_to_queue obsidion.Table.update
minted_once = refl

minted_twice :
    (live hasty history (open_ledger 20, unseen)).1
    ≡ ([], memo_for event_key ∷ memo_for event_key ∷ [])
unfolding live obsidion.Bridge.Minting.Runs.happen obsidion.Bridge.Minting.run_once
    obsidion.Bridge.Minting.Runtime.◌>>=◌ obsidion.Bridge.Minting.Runtime.ledger_now
    obsidion.Bridge.Minting.resolve_all obsidion.Bridge.Ledger.outstanding
    obsidion.Bridge.Ledger.select obsidion.Bridge.Ledger.Steps.perform
    obsidion.Bridge.Ledger.promote_confirmed obsidion.Bridge.Ledger.promote_rows
    obsidion.Bridge.Ledger.record_deposit obsidion.Bridge.Ledger.record_event obsidion.Table.lookup
    open_ledger obsidion.Table.put obsidion.Bridge.Ledger.is_deep obsidion.Bridge.Event.deposit_key
    obsidion.Bridge.Event.digits obsidion.Bridge.Event.str obsidion.Bridge.Ledger.actionable
    obsidion.Bridge.Ledger.mark_done obsidion.Bridge.Ledger.mark_in_flight
    obsidion.Bridge.Ledger.require_state obsidion.Bridge.Ledger.set_outcome
    obsidion.Bridge.Ledger.set_state obsidion.Bridge.Ledger.state_of
    obsidion.Bridge.Minting.Runtime.give obsidion.Bridge.Minting.Runtime.on_cluster
    obsidion.Bridge.Minting.Runtime.on_ledger obsidion.Bridge.Minting.Runtime.◌>>◌ memo_for
    obsidion.Bridge.Minting.mint_all obsidion.Bridge.Minting.mint_as
    obsidion.Bridge.Minting.mint_one obsidion.Bridge.Minting.mint_row
    obsidion.Bridge.Minting.mint_unless_blocked obsidion.Bridge.Minting.resolve_as
    obsidion.Bridge.Minting.return_to_queue obsidion.Table.update
minted_twice = refl

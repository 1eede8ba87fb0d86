-- ===== src/Bridge/Ledger/Supply.antt =====
-- What finishing an event does to `wrapped_supply`.
use obsidion.Prelude.{◌≡◌, refl, false, ◌&&◌, [], ◌∷◌, some, if◌then◌else◌, Bool-cases, inl, inr}
use obsidion.Prelude.Int.{ℤ, pos, ◌+ℤ◌, ◌-ℤ◌, parts, int_laws}
use obsidion.Prelude.Eq.{◌=?◌, ℕ_eq, List_eq}
use obsidion.Prelude.Result.{ok, >>=-eq-ok, >>-eq-ok, ok-injective, raise_if}
use obsidion.Errors.{value_error, no_receipt}
use obsidion.Table.{lookup, update}
use obsidion.Table.Laws.{IsKeyed}
use obsidion.Table.Sums.{total, total-update}
use obsidion.Bridge.Event.{Text, State, State_eq, done, Kind, deposit, burn, same_kind, Event}
use obsidion.Bridge.Ledger.Forward.Methods.{require_state_lem}
use obsidion.Bridge.Ledger.{
  BridgeLedger, Events, require_state, set_outcome, total_of, wrapped_supply, mark_done, can_finish,
  is_blank,
}

-- What a row counts for in `_total`.
abbrev counted : Kind → State → Text → Event → ℤ
counted kind state key row =
    if same_kind row.kind kind && (row.state =? state) then row.amount else pos 0

total_of-total :
    (kind : Kind) (state : State) (events : Events)
    → total_of kind state events ≡ total (counted kind state) events
unfolding total_of total
total_of-total kind state [] = refl
total_of-total kind state ((key, row) ∷ events) =
    elim (Bool-cases (same_kind row.kind kind && (row.state =? state))) [
      | inl e ↦ rw (e, total_of-total kind state events) refl
      | inr e ↦ rw (e, total_of-total kind state events) (omega int_laws)
    ]

-- What an event moves the supply by when it is finished.
abbrev pub finished_amount : Kind → ℤ → ℤ
finished_amount deposit amount = amount
finished_amount burn amount = pos 0 -ℤ amount

total_of-finish :
    (kind : Kind) (key receipt : Text) (row : Event) (events : Events)
    → IsKeyed events
    → lookup key events ≡ some row
    → (row.state =? done) ≡ false
    → total_of kind done (set_outcome key done receipt events)
      ≡ total_of kind done events +ℤ (if same_kind row.kind kind then row.amount else pos 0)
unfolding set_outcome
total_of-finish kind key receipt row events keyed found unfinished =
    let g : Event → Event = λ r. record r { state = done; receipt = some receipt } in
    let moved = total-update (counted kind done) key g row events keyed found in
    rw (total_of-total kind done (update key g events), total_of-total kind done events)
      (elim (Bool-cases (same_kind row.kind kind)) [
        | inl e ↦ let m = rw (e, unfinished) at moved in rw e (omega (int_laws, parts m))
        | inr e ↦ let m = rw e at moved in rw e (omega (int_laws, parts m))
      ])

-- The two kinds together.
both_kinds :
    (kind : Kind) (amount m m' r r' : ℤ)
    → m' ≡ m +ℤ (if same_kind kind deposit then amount else pos 0)
    → r' ≡ r +ℤ (if same_kind kind burn then amount else pos 0)
    → m' -ℤ r' ≡ (m -ℤ r) +ℤ finished_amount kind amount
both_kinds deposit amount m m' r r' h k = omega (int_laws, parts h, parts k)
both_kinds burn amount m m' r r' h k = omega (int_laws, parts h, parts k)

wrapped_supply-finish :
    (key receipt : Text) (row : Event) (l : BridgeLedger)
    → IsKeyed l.events
    → lookup key l.events ≡ some row
    → (row.state =? done) ≡ false
    → wrapped_supply (record l { events = set_outcome key done receipt l.events })
      ≡ wrapped_supply l +ℤ finished_amount row.kind row.amount
unfolding wrapped_supply
wrapped_supply-finish key receipt row l keyed found unfinished =
    let minted = total_of-finish deposit key receipt row l.events keyed found unfinished in
    let released = total_of-finish burn key receipt row l.events keyed found unfinished in
    both_kinds row.kind row.amount _ _ _ _ minted released

-- If a ledger has one row for each key and `mark_done` returns, then `wrapped_supply` has moved by
-- the amount of the event (up for a deposit, down for a burn), or not at all if the event was done
-- already.
pub mark_done-wrapped_supply :
    (key receipt : Text) (row : Event) (l l' : BridgeLedger)
    → IsKeyed l.events
    → lookup key l.events ≡ some row
    → mark_done key receipt l ≡ ok l'
    → wrapped_supply l' ≡ (
        if row.state =? done
        then wrapped_supply l
        else wrapped_supply l +ℤ finished_amount row.kind row.amount)
unfolding mark_done
mark_done-wrapped_supply key receipt row l l' keyed found h =
    let (_, _, h1) = >>-eq-ok (raise_if (is_blank receipt) (value_error no_receipt)) _ h in
    let (s, checked, h2) = >>=-eq-ok (require_state key can_finish l) _ h1 in
    let (same, _) = require_state_lem key can_finish l s row checked found in
    elim (Bool-cases (s =? done)) [
      | inl e ↦ let e' = ok-injective (rw e at h2) in rw (← e', same, e) refl
      | inr e ↦
          let e' : record l { events = set_outcome key done receipt l.events } ≡ l' =
            ok-injective (rw e at h2) in
          rw (← e', same, e) (wrapped_supply-finish key receipt row l keyed found (rw same e))
    ]

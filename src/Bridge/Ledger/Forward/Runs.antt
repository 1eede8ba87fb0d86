-- ===== src/Bridge/Ledger/Forward/Runs.antt =====
-- What a sequence of calls does to the events of the bridge's ledger.
use obsidion.Prelude.{
  not, Bool, true, false, ℕ, ◌≡◌, refl, ◌⊎◌, inl, inr, ◌&&◌, List, [], ◌∷◌, none, some, arith, All,
  All-map, Bool-cases, Option-cases, sym, ◌∙◌, ap,
}
use obsidion.Prelude.Eq.{◌=?◌, ℕ_eq, List_eq, =?-eq, =?-refl}
use obsidion.Prelude.Result.{ok, err, ◌>>=◌, >>=-eq-ok, >>-eq-ok, ok-injective, raise_if}
use obsidion.Errors.{Try}
use obsidion.Table.{lookup}
use obsidion.Table.Laws.{lookup-update, IsKeyed}
use obsidion.Bridge.Event.{
  Text, State, State_eq, pending, ready, done, Kind, deposit, same_kind, Event,
}
use obsidion.Bridge.Ledger.{
  open_ledger, is_blank, BridgeLedger, Events, assign_destination, record_deposit, record_burn,
  set_state, select, is_deep, promote_rows, promote_confirmed,
}
use obsidion.Bridge.Ledger.Steps.{
  Operation, assigns, sees_deposit, sees_burn, promotes, marks_ready, marks_in_flight, marks_done,
  abandons, perform, or_same, run,
}
use obsidion.Bridge.Ledger.Forward.{
  some-injective, has_receipt, Receipted, is_forward, IsLater, Extends, Extends-refl, Extends-trans,
  set_state-Extends,
}
use obsidion.Bridge.Ledger.Forward.Methods.{
  mark_ready-Extends, mark_in_flight-Extends, mark_done-Extends, abandon-Extends,
  record_event-Extends,
}

-- Waiting: not sent yet.
abbrev Waits : Events → Text × Event → Type 0
Waits events (key, _) =
    (row : Event) → lookup key events ≡ some row → (row.state ≡ pending) ⊎ (row.state ≡ ready)

set_ready-Waits :
    (key : Text) (events : Events) (r : Text × Event)
    → Waits events r
    → Waits (set_state key ready events) r
unfolding set_state
set_ready-Waits key events (k, old) w row h = elim (Bool-cases (key =? k)) [
  | inl e ↦ elim (Option-cases (lookup k events)) [
    | inl free ↦
        let clash =
          rw (lookup-update key k (λ row. record row { state = ready }) events, e, free) at h in
        cc
    | inr (r, found) ↦
        let g =
          rw (lookup-update key k (λ row. record row { state = ready }) events, e, found) at h in
        inr (sym (ap (λ x. x.state) (some-injective g)))
  ]
  | inr e ↦ w row (rw (lookup-update key k (λ row. record row { state = ready }) events, e) at h)
]

promote_rows-Extends :
    (confirmations tip_height : ℕ) (rows events : Events)
    → All (Waits events) rows
    → Extends events ((promote_rows confirmations tip_height rows events).1)
unfolding promote_rows
promote_rows-Extends confirmations tip_height [] events w = Extends-refl events
promote_rows-Extends confirmations tip_height ((key, row) ∷ rows) events (w, ws) =
    elim (Bool-cases (is_deep confirmations tip_height row)) [
      | inl e ↦ rw e (
          Extends-trans _ _ _
            (set_state-Extends key ready events refl λ r found. elim (w r found) [
              | inl s ↦ rw s (unfold is_forward in refl, λ k. cc)
              | inr s ↦ rw s (unfold is_forward in refl, λ k. cc)
            ])
            (promote_rows-Extends confirmations tip_height rows (set_state key ready events)
              (All-map (λ r. set_ready-Waits key events r) rows ws)))
      | inr e ↦ rw e (promote_rows-Extends confirmations tip_height rows events ws)
    ]

-- What `select` finds is in the table under its key.
abbrev pub Found : State → Events → Text × Event → Type 0
Found state events (key, row) = (lookup key events ≡ some row) × (row.state ≡ state)

Found-later :
    (state : State) (key : Text) (row : Event) (events : Events) (r : Text × Event)
    → lookup key events ≡ none
    → Found state events r
    → Found state ((key, row) ∷ events) r
unfolding lookup
Found-later state key row events (k, old) free (found, s) = elim (Bool-cases (key =? k)) [
  | inl e ↦ let clash : none ≡ some old = sym free ∙ (rw (=?-eq key k e) found) in cc
  | inr e ↦ (rw (lookup, e) found, s)
]

pub select-Found :
    (kind : Kind) (state : State) (events : Events)
    → IsKeyed events
    → All (Found state events) (select kind state events)
unfolding select lookup
select-Found kind state [] keyed = tt
select-Found kind state ((key, row) ∷ events) (free, keyed) =
    let later =
      All-map (λ r. Found-later state key row events r free) (select kind state events)
        (select-Found kind state events keyed) in
    elim (Bool-cases (same_kind row.kind kind && (row.state =? state))) [
      | inl e ↦
          rw e (
            (rw (lookup, =?-refl key) refl, ground (arith, State_eq.beq_iff row.state state)),
            later,
          )
      | inr e ↦ rw e later
    ]

promote_confirmed-Extends :
    (tip_height : ℕ) (l : BridgeLedger)
    → IsKeyed l.events
    → Extends l.events ((promote_confirmed tip_height l).1.events)
unfolding promote_confirmed
promote_confirmed-Extends tip_height l keyed =
    promote_rows-Extends l.confirmations tip_height (select deposit pending l.events) l.events (
      All-map (λ r f row h. inl (ap (λ x. x.state) (some-injective (sym h ∙ f.0)) ∙ f.1))
        (select deposit pending l.events) (select-Found deposit pending l.events keyed))

-- The new ledger of a call that also answers.
after-eq-ok :
    (m : Try (State × BridgeLedger)) (l' : BridgeLedger)
    → (m >>= λ r. ok r.1) ≡ ok l'
    → (s : State) × (m ≡ ok (s, l'))
after-eq-ok m l' h =
    let ((s, l1), h1, h2) = >>=-eq-ok m _ h in let e : l1 ≡ l' = ok-injective h2 in (s, rw (← e) h1)

pub perform-Extends :
    (operation : Operation) (l l' : BridgeLedger)
    → IsKeyed l.events
    → perform operation l ≡ ok l'
    → Extends l.events l'.events
unfolding perform assign_destination record_deposit record_burn
perform-Extends (assigns deposit_address solana_address) l l' keyed h =
    let (_, _, h') = >>-eq-ok (raise_if _ _) _ h in
    let e : l.events ≡ l'.events = ap (λ x. x.events) (ok-injective h') in
    rw (← e) (Extends-refl l.events)
perform-Extends (sees_deposit d) l l' keyed h =
    let (s, h') = after-eq-ok (record_deposit d l) l' h in record_event-Extends _ _ _ _ _ l l' s h'
perform-Extends (sees_burn b) l l' keyed h =
    let (s, h') = after-eq-ok (record_burn b l) l' h in record_event-Extends _ _ _ _ _ l l' s h'
perform-Extends (promotes tip_height) l l' keyed h =
    let e = ok-injective h in rw (← e) (promote_confirmed-Extends tip_height l keyed)
perform-Extends (marks_ready key) l l' keyed h = mark_ready-Extends key l l' h
perform-Extends (marks_in_flight key) l l' keyed h = mark_in_flight-Extends key l l' h
perform-Extends (marks_done key receipt) l l' keyed h = mark_done-Extends key receipt l l' h
perform-Extends (abandons key reason) l l' keyed h = abandon-Extends key reason l l' h

pub or_same-Extends :
    (m : Try BridgeLedger) (l : BridgeLedger)
    → ((l' : BridgeLedger) → m ≡ ok l' → Extends l.events l'.events)
    → Extends l.events ((or_same m l).events)
or_same-Extends (ok l') l f = f l' refl
or_same-Extends (err e) l f = Extends-refl l.events

run-Extends :
    (operations : List Operation) (l : BridgeLedger)
    → IsKeyed l.events
    → Extends l.events ((run operations l).events)
unfolding run
run-Extends [] l keyed = Extends-refl l.events
run-Extends (operation ∷ operations) l keyed =
    let next = or_same (perform operation l) l in
    let one : Extends l.events next.events =
      or_same-Extends (perform operation l) l (λ l' h. perform-Extends operation l l' keyed h) in
    Extends-trans _ _ _ one (run-Extends operations next (one.1 keyed))

false_of_not : (b : Bool) → not b ≡ true → b ≡ false
false_of_not true h = cc
false_of_not false h = refl

receipt_of :
    (row : Event)
    → row.state ≡ done
    → has_receipt row ≡ true
    → (receipt : Text) × (row.receipt ≡ some receipt) × (is_blank receipt ≡ false)
receipt_of row finished h = elim (Option-cases row.receipt) [
  | inl e ↦ let clash = rw (finished, e) at h in cc
  | inr (receipt, e) ↦
      let g : not (is_blank receipt) ≡ true = rw (finished, e) at h in
      (receipt, e, false_of_not (is_blank receipt) g)
]

-- If a ledger has one row for each key, then over any sequence of calls, with those that raise
-- leaving the ledger as it is, an event keeps its kind, amount, payload and height, and its state
-- only moves forward.
pub run-keeps_event :
    (operations : List Operation) (l : BridgeLedger) (key : Text) (row : Event)
    → IsKeyed l.events
    → lookup key l.events ≡ some row
    → (row' : Event) × (lookup key ((run operations l).events) ≡ some row') × IsLater row row'
run-keeps_event operations l key row keyed h =
    let (row', found, later) = (run-Extends operations l keyed).0 key row h in
    (row', found, later.0)

-- If a ledger has one row for each key, an event that is done is, after any sequence of calls, the
-- same row, its receipt included.
pub run-keeps_done :
    (operations : List Operation) (l : BridgeLedger) (key : Text) (row : Event)
    → IsKeyed l.events
    → lookup key l.events ≡ some row
    → row.state ≡ done
    → lookup key ((run operations l).events) ≡ some row
run-keeps_done operations l key row keyed h finished =
    let (row', found, later) = (run-Extends operations l keyed).0 key row h in
    found ∙ ap some (later.1 finished)

-- However the methods of a new ledger are called, an event that is done has a receipt, and it is
-- not empty.
pub run-receipt :
    (operations : List Operation) (confirmations : ℕ) (key : Text) (row : Event)
    → lookup key ((run operations (open_ledger confirmations)).events) ≡ some row
    → row.state ≡ done
    → (receipt : Text) × (row.receipt ≡ some receipt) × (is_blank receipt ≡ false)
unfolding open_ledger lookup
run-receipt operations confirmations key row found finished =
    let start : Receipted [] = (λ k r h. cc) in
    receipt_of row finished
      ((run-Extends operations (open_ledger confirmations) tt).2 start key row found)

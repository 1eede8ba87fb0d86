-- ===== src/Bridge/Ledger/Forward/Methods.antt =====
-- What a method, and a sequence of calls, does to the events of the bridge's ledger.
use obsidion.Prelude.{
  ℕ, ◌≡◌, ◌≢◌, refl, inl, inr, Bool, true, not, ◌++◌, Option, none, some, arith, if◌then◌else◌,
  Bool-cases, Option-cases, sym, ◌∙◌, ap,
}
use obsidion.Prelude.Int.{ℤ, eqb_ℤ}
use obsidion.Prelude.Eq.{◌=?◌, ℕ_eq, List_eq}
use obsidion.Prelude.Result.{
  ok, err, >>=-eq-ok, >>-eq-ok, ok-injective, raise_if, raise_if-eq-ok, or_raise, or_raise-eq-ok,
}
use obsidion.Errors.{value_error, no_receipt, already_acted_on, unresolved}
use obsidion.Table.{lookup, put}
use obsidion.Bridge.Event.{
  codes, Text, State, State_eq, pending, ready, in_flight, done, abandoned, Kind, Event, Payload,
}
use obsidion.Bridge.Ledger.{
  BridgeLedger, record_event, state_of, require_state, set_state, set_outcome, mark_ready,
  mark_in_flight, mark_done, abandon, can_send, can_finish, is_blank,
}
use obsidion.Bridge.Ledger.Forward.{
  some-injective, is_forward, Extends, Extends-refl, put_new-Extends, set_state-Extends,
  set_outcome-Extends,
}

-- What a passed check of the state says of the row.
state_of_lem :
    (key : Text) (l : BridgeLedger) (row : Event)
    → lookup key l.events ≡ some row
    → state_of key l ≡ some row.state
unfolding state_of
state_of_lem key l row h = rw (state_of, h) refl

pub require_state_lem :
    (key : Text) (allowed : State → Bool) (l : BridgeLedger) (s : State) (row : Event)
    → require_state key allowed l ≡ ok s
    → lookup key l.events ≡ some row
    → (row.state ≡ s) × (allowed s ≡ true)
unfolding require_state
require_state_lem key allowed l s row h found =
    let known = state_of_lem key l row found in
    let (s', h1, h2) = >>=-eq-ok (or_raise (state_of key l) _) _ h in
    let same : some row.state ≡ some s' = sym known ∙ or_raise-eq-ok _ _ h1 in
    let (_, h3, h4) = >>-eq-ok (raise_if (not (allowed s')) _) _ h2 in
    let e = ok-injective h4 in
    let passed = raise_if-eq-ok _ _ h3 in rw (← e) (some-injective same, ground arith)

can_send_lem : (s : State) → can_send s ≡ true → (is_forward s in_flight ≡ true) × (s ≢ done)
unfolding is_forward
can_send_lem pending h = cc
can_send_lem ready h = (refl, λ e. cc)
can_send_lem in_flight h = (refl, λ e. cc)
can_send_lem done h = cc
can_send_lem abandoned h = cc

can_finish_lem : (s : State) → can_finish s ≡ true → is_forward s done ≡ true
unfolding is_forward
can_finish_lem pending h = cc
can_finish_lem ready h = refl
can_finish_lem in_flight h = refl
can_finish_lem done h = refl
can_finish_lem abandoned h = cc

can_abandon_lem : (s : State) → s ≢ done → s ≢ in_flight → is_forward s abandoned ≡ true
unfolding is_forward
can_abandon_lem pending h k = refl
can_abandon_lem ready h k = refl
can_abandon_lem in_flight h k = absurd (k refl)
can_abandon_lem done h k = absurd (h refl)
can_abandon_lem abandoned h k = refl

pub mark_ready-Extends :
    (key : Text) (l l' : BridgeLedger) → mark_ready key l ≡ ok l' → Extends l.events l'.events
unfolding mark_ready is_forward
mark_ready-Extends key l l' h =
    let (s, checked, h') = >>=-eq-ok (require_state key (λ s. s =? pending) l) _ h in
    let e : record l { events = set_state key ready l.events } ≡ l' = ok-injective h' in
    rw (← e) (
      set_state-Extends key ready l.events refl λ row found.
        let (same, allowed) = require_state_lem key (λ s. s =? pending) l s row checked found in
        let first = same ∙ (State_eq.beq_iff s pending).0 allowed in rw first (refl, λ k. cc))

pub mark_in_flight-Extends :
    (key : Text) (l l' : BridgeLedger) → mark_in_flight key l ≡ ok l' → Extends l.events l'.events
unfolding mark_in_flight
mark_in_flight-Extends key l l' h =
    let (s, checked, h') = >>=-eq-ok (require_state key can_send l) _ h in
    let e : record l { events = set_state key in_flight l.events } ≡ l' = ok-injective h' in
    rw (← e) (
      set_state-Extends key in_flight l.events refl λ row found.
        let (same, allowed) = require_state_lem key can_send l s row checked found in
        rw same (can_send_lem s allowed))

pub mark_done-Extends :
    (key receipt : Text) (l l' : BridgeLedger)
    → mark_done key receipt l ≡ ok l'
    → Extends l.events l'.events
unfolding mark_done
mark_done-Extends key receipt l l' h =
    let (_, given, h1) = >>-eq-ok (raise_if (is_blank receipt) (value_error no_receipt)) _ h in
    let filled = raise_if-eq-ok (is_blank receipt) (value_error no_receipt) given in
    let (s, checked, h2) = >>=-eq-ok (require_state key can_finish l) _ h1 in
    elim (Bool-cases (s =? done)) [
      | inl e ↦ let same = ok-injective (rw e at h2) in rw (← same) (Extends-refl l.events)
      | inr e ↦
          let e' : record l { events = set_outcome key done receipt l.events } ≡ l' =
            ok-injective (rw e at h2) in
          rw (← e') (
            set_outcome-Extends key done receipt l.events filled λ row found.
              let (same, allowed) = require_state_lem key can_finish l s row checked found in
              rw same (can_finish_lem s allowed, λ k. ground (arith, State_eq.beq_iff s done)))
    ]

-- The branches of `abandon` at a known event.
abandon_known-Extends :
    (key reason : Text) (l l' : BridgeLedger) (s : State)
    → state_of key l ≡ some s
    → (if s =? done
        then err (value_error already_acted_on)
        else if s =? in_flight
        then err (value_error unresolved)
        else ok (record l {
          events = set_outcome key abandoned (codes "abandoned: " ++ reason) l.events;
        }))
      ≡ ok l'
    → Extends l.events l'.events
abandon_known-Extends key reason l l' s known h = elim (Bool-cases (s =? done)) [
  | inl d ↦ let clash = rw d at h in cc
  | inr d ↦ elim (Bool-cases (s =? in_flight)) [
    | inl f ↦ let clash = rw (d, f) at h in cc
    | inr f ↦
        let e : record l {
          events = set_outcome key abandoned (codes "abandoned: " ++ reason) l.events;
        }
            ≡ l' =
          ok-injective (rw (d, f) at h) in
        rw (← e) (
          set_outcome-Extends key abandoned (codes "abandoned: " ++ reason) l.events refl
            λ row found.
              let same : row.state ≡ s =
                some-injective (sym (state_of_lem key l row found) ∙ known) in
              rw same (
                can_abandon_lem s (λ k. ground (arith, State_eq.beq_iff s done))
                    (λ k. ground (arith, State_eq.beq_iff s in_flight)),
                λ k. ground (arith, State_eq.beq_iff s done),
              ))
  ]
]

pub abandon-Extends :
    (key reason : Text) (l l' : BridgeLedger)
    → abandon key reason l ≡ ok l'
    → Extends l.events l'.events
unfolding abandon
abandon-Extends key reason l l' h = elim (Option-cases (state_of key l)) [
  | inl e ↦ rw (← ok-injective (rw (abandon, e) at h)) (Extends-refl l.events)
  | inr (s, e) ↦ abandon_known-Extends key reason l l' s e (rw (abandon, e) at h)
]

pub record_event-Extends :
    (key : Text) (kind : Kind) (amount : ℤ) (height : Option ℕ) (payload : Payload)
    (l l' : BridgeLedger) (s : State)
    → record_event key kind amount height payload l ≡ ok (s, l')
    → Extends l.events l'.events
unfolding record_event
record_event-Extends key kind amount height payload l l' s h =
    elim (Option-cases (lookup key l.events)) [
      | inl e ↦
          let r : Event = record {
            kind = kind;
            state = pending;
            amount = amount;
            payload = payload;
            height = height;
            receipt = none;
          } in
          let moved : (pending, record l { events = put key r l.events }) ≡ (s, l') =
            ok-injective (rw (record_event, e) at h) in
          rw (← ap (λ x. x.1) moved) (put_new-Extends key r l.events e refl)
      | inr (row, e) ↦ elim (Bool-cases (eqb_ℤ row.amount amount)) [
        | inl same ↦
            let kept : (row.state, l) ≡ (s, l') = ok-injective (rw (record_event, e, same) at h) in
            rw (← ap (λ x. x.1) kept) (Extends-refl l.events)
        | inr other ↦ let clash = rw (record_event, e, other) at h in cc
      ]
    ]

-- ===== src/Bridge/Ledger/Forward.antt =====
-- What it is for the events of the bridge's ledger to go on: `Extends` relates two tables.
pub mod Methods
pub mod Runs
use obsidion.Prelude.{
  ℕ, ◌≡◌, ◌≢◌, refl, ◌⊎◌, inl, inr, Bool, true, false, ◌&&◌, ◌||◌, not, List, [], ◌∷◌, Option, none,
  some, arith, if◌then◌else◌, All, Bool-cases, Option-cases, sym, ◌∙◌, ap, subst,
}
use mathlib.Core.Option
use obsidion.Prelude.Eq.{Eq, ◌=?◌, ℕ_eq, List_eq, =?-eq, =?-ne}
use obsidion.Prelude.Result.{
  Result, ok, err, ◌>>=◌, >>=-eq-ok, >>-eq-ok, ok-injective, raise_if, raise_if-eq-ok, or_raise,
  or_raise-eq-ok,
}
use obsidion.Errors.{Error, Try}
use obsidion.Table.{lookup, put, update}
use obsidion.Table.Laws.{lookup-put, lookup-update, IsKeyed, put-IsKeyed, update-IsKeyed}
use obsidion.Bridge.Event.{
  Text, State, State_eq, pending, ready, in_flight, done, abandoned, Kind, deposit, same_kind,
  Event, Deposit, Burn,
}
use obsidion.Bridge.Ledger.{
  is_blank, BridgeLedger, Events, assign_destination, record_event, record_deposit, record_burn,
  state_of, require_state, set_state, set_outcome, select, is_deep, promote_rows, promote_confirmed,
  mark_ready, mark_in_flight, mark_done, abandon, can_send, can_finish,
}
use obsidion.Bridge.Ledger.Steps.{
  Operation, assigns, sees_deposit, sees_burn, promotes, marks_ready, marks_in_flight, marks_done,
  abandons, perform, run,
}

-- Where a state can get to.
unfoldable pub is_forward : State → State → Bool
is_forward pending t = true
is_forward ready t = not (t =? pending)
is_forward in_flight t = (t =? in_flight) || (t =? done)
is_forward done t = t =? done
is_forward abandoned t = t =? abandoned

pub is_forward_refl : (s : State) → is_forward s s ≡ true
unfolding is_forward
is_forward_refl pending = refl
is_forward_refl ready = refl
is_forward_refl in_flight = refl
is_forward_refl done = refl
is_forward_refl abandoned = refl

pub is_forward_trans :
    (r s t : State) → is_forward r s ≡ true → is_forward s t ≡ true → is_forward r t ≡ true
unfolding is_forward
is_forward_trans pending s t h k = refl
is_forward_trans ready pending t h k = cc
is_forward_trans ready ready t h k = k
is_forward_trans ready in_flight t h k =
    ground
      (arith, State_eq.beq_iff t pending, State_eq.beq_iff t in_flight, State_eq.beq_iff t done)
is_forward_trans ready done t h k = rw ((State_eq.beq_iff t done).0 k) refl
is_forward_trans ready abandoned t h k = rw ((State_eq.beq_iff t abandoned).0 k) refl
is_forward_trans in_flight pending t h k = cc
is_forward_trans in_flight ready t h k = cc
is_forward_trans in_flight in_flight t h k = k
is_forward_trans in_flight done t h k = rw ((State_eq.beq_iff t done).0 k) refl
is_forward_trans in_flight abandoned t h k = cc
is_forward_trans done s t h k = rw ((State_eq.beq_iff s done).0 h) at k
is_forward_trans abandoned s t h k = rw ((State_eq.beq_iff s abandoned).0 h) at k

-- A row that is the same event, in a state that it can get to.
abbrev pub IsLater : Event → Event → Type 0
IsLater row row' =
    (row'.kind ≡ row.kind)
    × (row'.amount ≡ row.amount)
    × (row'.payload ≡ row.payload)
    × (row'.height ≡ row.height)
    × (is_forward row.state row'.state ≡ true)

-- Besides, one that is done does not change at all.
abbrev pub Continues : Event → Event → Type 0
Continues row row' = IsLater row row' × (row.state ≡ done → row' ≡ row)

pub Continues-refl : (row : Event) → Continues row row
Continues-refl row = ((refl, refl, refl, refl, is_forward_refl row.state), λ _. refl)

pub Continues-trans : (r s t : Event) → Continues r s → Continues s t → Continues r t
Continues-trans r s t ((k, a, p, h, f), d) ((k', a', p', h', f'), d') = (
  (k' ∙ k, a' ∙ a, p' ∙ p, h' ∙ h, is_forward_trans r.state s.state t.state f f'),
  λ e. d' (ap (λ x. x.state) (d e) ∙ e) ∙ d e,
)

-- Every row of the first table is in the second, further on.
abbrev pub Keeps : Events → Events → Type 0
Keeps events events' =
    (key : Text) (row : Event)
    → lookup key events ≡ some row
    → (row' : Event) × (lookup key events' ≡ some row') × Continues row row'

abbrev lacks_receipt : Option Text → Bool
lacks_receipt none = true
lacks_receipt (some receipt) = is_blank receipt

-- A row that is done has a receipt.
abbrev pub has_receipt : Event → Bool
has_receipt row = not ((row.state =? done) && lacks_receipt row.receipt)

abbrev pub Receipted : Events → Type 0
Receipted events =
    (key : Text) (row : Event) → lookup key events ≡ some row → has_receipt row ≡ true

-- That, and the second has one row for each key, or a receipt in each row that is done, if the first
-- has.
abbrev pub Extends : Events → Events → Type 0
Extends events events' =
    Keeps events events'
    × (IsKeyed events → IsKeyed events')
    × (Receipted events → Receipted events')

pub Extends-refl : (events : Events) → Extends events events
Extends-refl events = (λ key row h. (row, h, Continues-refl row), λ k. k, λ r. r)

pub Extends-trans : (r s t : Events) → Extends r s → Extends s t → Extends r t
Extends-trans r s t (f, k, v) (g, k', v') = (
  λ key row h.
      let (row', h', c) = f key row h in
      let (row'', h'', c') = g key row' h' in (row'', h'', Continues-trans row row' row'' c c'),
  λ keyed. k' (k keyed),
  λ receipted. v' (v receipted),
)

pub some-injective : {A : Type 0} {a b : A} → ◌≡◌ {A = Option A} (some a) (some b) → a ≡ b
some-injective h = cc

update-Receipted :
    (key : Text) (f : Event → Event) (events : Events)
    → ((row : Event) → has_receipt (f row) ≡ true)
    → Receipted events
    → Receipted (update key f events)
update-Receipted key f events written receipted k row h = elim (Bool-cases (key =? k)) [
  | inl e ↦ elim (Option-cases (lookup k events)) [
    | inl free ↦ let clash = rw (lookup-update key k f events, e, free) at h in cc
    | inr (r, found) ↦
        let g = rw (lookup-update key k f events, e, found) at h in
        subst (λ z. has_receipt z ≡ true) (some-injective g) (written r)
  ]
  | inr e ↦ receipted k row (rw (lookup-update key k f events, e) at h)
]

put-Receipted :
    (key : Text) (new : Event) (events : Events)
    → has_receipt new ≡ true
    → Receipted events
    → Receipted (put key new events)
put-Receipted key new events written receipted k row h = elim (Bool-cases (key =? k)) [
  | inl e ↦
      let g = rw (lookup-put key k new events, e) at h in
      subst (λ z. has_receipt z ≡ true) (some-injective g) written
  | inr e ↦ receipted k row (rw (lookup-put key k new events, e) at h)
]

-- An `UPDATE` of one row keeps the events if it moves that row on.
pub update-Extends :
    (key : Text) (f : Event → Event) (events : Events)
    → ((row : Event) → lookup key events ≡ some row → Continues row (f row))
    → ((row : Event) → has_receipt (f row) ≡ true)
    → Extends events (update key f events)
update-Extends key f events moves written = (
  λ k row h. elim (Bool-cases (key =? k)) [
    | inl e ↦
        let same = =?-eq key k e in
        let h' : lookup key events ≡ some row = rw same h in
        (f row, lookup-update key k f events ∙ (rw (e, h) refl), moves row h')
    | inr e ↦ (row, lookup-update key k f events ∙ (rw (e, h) refl), Continues-refl row)
  ],
  update-IsKeyed key f events,
  update-Receipted key f events written,
)

-- An `INSERT` of a new key keeps the events.
pub put_new-Extends :
    (key : Text) (row : Event) (events : Events)
    → lookup key events ≡ none
    → has_receipt row ≡ true
    → Extends events (put key row events)
put_new-Extends key row events free written = (
  λ k old h. elim (Bool-cases (key =? k)) [
    | inl e ↦ let clash : some old ≡ none = sym h ∙ (rw (← =?-eq key k e) free) in cc
    | inr e ↦ (old, lookup-put key k row events ∙ (rw (e, h) refl), Continues-refl old)
  ],
  put-IsKeyed key row events,
  put-Receipted key row events written,
)

and_false : (b : Bool) → (b && false) ≡ false
and_false true = refl
and_false false = refl

pub set_state-Extends :
    (key : Text) (s : State) (events : Events)
    → (s =? done) ≡ false
    → ((row : Event)
        → lookup key events ≡ some row
        → (is_forward row.state s ≡ true) × (row.state ≢ done))
    → Extends events (set_state key s events)
unfolding set_state
set_state-Extends key s events unfinished_state moves =
    update-Extends key (λ row. record row { state = s }) events
      (λ row h.
        let (forward, unfinished) = moves row h in
        ((refl, refl, refl, refl, forward), λ e. absurd (unfinished e)))
      (λ row. rw unfinished_state refl)

pub set_outcome-Extends :
    (key : Text) (s : State) (receipt : Text) (events : Events)
    → is_blank receipt ≡ false
    → ((row : Event)
        → lookup key events ≡ some row
        → (is_forward row.state s ≡ true) × (row.state ≢ done))
    → Extends events (set_outcome key s receipt events)
unfolding set_outcome
set_outcome-Extends key s receipt events filled moves =
    update-Extends key (λ row. record row { state = s; receipt = some receipt }) events
      (λ row h.
        let (forward, unfinished) = moves row h in
        ((refl, refl, refl, refl, forward), λ e. absurd (unfinished e)))
      (λ row. rw (filled, and_false (s =? done)) refl)

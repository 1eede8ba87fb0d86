-- ===== src/Bridge/Ledger.antt =====
-- `BridgeLedger` of bridge/ledger.py. Every method runs in one transaction, which an exception rolls
-- back, so a method that raises gives no new ledger. A query without an order is answered in the
-- order of insertion, as the ones with `ORDER BY rowid` are.
pub mod Steps
pub mod Forward
pub mod Supply
use obsidion.Prelude.{
  ℕ, suc, ◌+◌, Bool, true, false, ◌&&◌, ◌||◌, not, List, [], ◌∷◌, ◌++◌, map, Option, none, some,
  leb, if◌then◌else◌,
}
use obsidion.Prelude.Int.{ℤ, pos, ◌+ℤ◌, ◌-ℤ◌, eqb_ℤ}
use obsidion.Prelude.Eq.{◌=?◌, ℕ_eq, List_eq}
use obsidion.Prelude.Result.{ok, err, ◌>>=◌, ◌>>◌, raise_if, or_raise}
use obsidion.Errors.{
  Try, value_error, key_error, already_assigned, another_amount, no_receipt, already_acted_on,
  unresolved, unexpected_state,
}
use obsidion.Table.{Table, lookup, put, update}
use obsidion.Bridge.Event.{
  Text, codes, State, State_eq, pending, ready, in_flight, done, abandoned, Kind, deposit, burn,
  same_kind, Payload, deposit_payload, burn_payload, Event, Deposit, Burn, deposit_key, burn_key,
}

abbrev pub Events : Type 0
Events = Table Text Event

pub record BridgeLedger : Type 0 where
  pub confirmations : ℕ
  pub events : Events
  pub destinations : Table Text Text

-- `__init__` over an empty database.
unfoldable pub open_ledger : ℕ → BridgeLedger
open_ledger confirmations = record { confirmations = confirmations; events = []; destinations = [] }

unfoldable pub destination_for : Text → BridgeLedger → Option Text
destination_for deposit_address l = lookup deposit_address l.destinations

-- `existing is not None and existing != solana_address`
abbrev taken_by_another : Option Text → Text → Bool
taken_by_another none solana_address = false
taken_by_another (some existing) solana_address = not (existing =? solana_address)

unfoldable pub assign_destination : Text → Text → BridgeLedger → Try BridgeLedger
unfolding destination_for
assign_destination deposit_address solana_address l = do
  raise_if (taken_by_another (destination_for deposit_address l) solana_address)
      (value_error already_assigned)
  ok (record l { destinations = put deposit_address solana_address l.destinations })

-- `_record`. The new row has no receipt.
unfoldable pub record_event :
    Text → Kind → ℤ → Option ℕ → Payload → BridgeLedger → Try (State × BridgeLedger)
record_event key kind amount height payload l = elim (lookup key l.events) [
  | none ↦ ok (
    pending,
    record l {
      events =
          put key
            (record {
              kind = kind;
              state = pending;
              amount = amount;
              payload = payload;
              height = height;
              receipt = none;
            })
            l.events;
    },
  )
  | some row ↦
      (if eqb_ℤ row.amount amount then ok (row.state, l) else err (value_error another_amount))
]

unfoldable pub record_deposit : Deposit → BridgeLedger → Try (State × BridgeLedger)
record_deposit d l =
    record_event (deposit_key d) deposit d.amount (some d.height)
      (deposit_payload d.deposit_address d.solana_address) l

unfoldable pub record_burn : Burn → BridgeLedger → Try (State × BridgeLedger)
record_burn b l = record_event (burn_key b) burn b.amount none (burn_payload b.obsidion_address) l

unfoldable pub state_of : Text → BridgeLedger → Option State
state_of key l = elim (lookup key l.events) [ none ↦ none | some row ↦ some row.state ]

-- `_require_state`
unfoldable pub require_state : Text → (State → Bool) → BridgeLedger → Try State
require_state key allowed l = do
  state ← or_raise (state_of key l) key_error
  raise_if (not (allowed state)) (value_error unexpected_state)
  ok state

-- `UPDATE events SET state = ? WHERE key = ?`
unfoldable pub set_state : Text → State → Events → Events
set_state key state events = update key (λ row. record row { state = state }) events

unfoldable pub set_outcome : Text → State → Text → Events → Events
set_outcome key state receipt events =
    update key (λ row. record row { state = state; receipt = some receipt }) events

-- The rows of a kind in a state.
unfoldable pub select : Kind → State → Events → Events
select kind state [] = []
select kind state ((key, row) ∷ events) =
    let rest = select kind state events in
    if same_kind row.kind kind && (row.state =? state) then (key, row) ∷ rest else rest

-- `height is not None and tip_height - height + 1 >= self.confirmations`, with the height added
-- on both sides.
unfoldable pub is_deep : ℕ → ℕ → Event → Bool
is_deep confirmations tip_height row = elim row.height [
  | none ↦ false
  | some height ↦ leb (confirmations + height) (suc tip_height)
]

-- The loop of `promote_confirmed`, over the rows that it has read before.
unfoldable pub promote_rows : ℕ → ℕ → Events → Events → List Text × Events
promote_rows confirmations tip_height [] events = ([], events)
promote_rows confirmations tip_height ((key, row) ∷ rows) events =
    let skipped = promote_rows confirmations tip_height rows events in
    let promoted = promote_rows confirmations tip_height rows (set_state key ready events) in
    if is_deep confirmations tip_height row then (key ∷ promoted.0, promoted.1) else skipped

unfoldable pub promote_confirmed : ℕ → BridgeLedger → List Text × BridgeLedger
promote_confirmed tip_height l =
    let (promoted, events) =
      promote_rows l.confirmations tip_height (select deposit pending l.events) l.events in
    (promoted, record l { events = events })

unfoldable pub mark_ready : Text → BridgeLedger → Try BridgeLedger
mark_ready key l = do
  require_state key (λ s. s =? pending) l
  ok (record l { events = set_state key ready l.events })

abbrev pub can_send : State → Bool
can_send s = (s =? ready) || (s =? in_flight)

unfoldable pub mark_in_flight : Text → BridgeLedger → Try BridgeLedger
mark_in_flight key l = do
  require_state key can_send l
  ok (record l { events = set_state key in_flight l.events })

abbrev pub can_finish : State → Bool
can_finish s = (s =? ready) || (s =? in_flight) || (s =? done)

abbrev pub is_blank : Text → Bool
is_blank [] = true
is_blank (c ∷ text) = false

unfoldable pub mark_done : Text → Text → BridgeLedger → Try BridgeLedger
mark_done key receipt l = do
  raise_if (is_blank receipt) (value_error no_receipt)
  state ← require_state key can_finish l
  if state =? done then ok l else ok (record l { events = set_outcome key done receipt l.events })

unfoldable pub abandon : Text → Text → BridgeLedger → Try BridgeLedger
abandon key reason l = elim (state_of key l) [
  | none ↦ ok l
  | some state ↦
      (if state =? done
        then err (value_error already_acted_on)
        else if state =? in_flight
        then err (value_error unresolved)
        else ok (record l {
          events = set_outcome key abandoned (codes "abandoned: " ++ reason) l.events;
        }))
]

abbrev pub what_to_do : Text × Event → Text × ℤ × Payload
what_to_do (key, row) = (key, row.amount, row.payload)

-- `actionable` and `in_flight`
unfoldable pub actionable : Kind → BridgeLedger → List (Text × ℤ × Payload)
actionable kind l = map what_to_do (select kind ready l.events)

unfoldable pub outstanding : Kind → BridgeLedger → List (Text × ℤ × Payload)
outstanding kind l = map what_to_do (select kind in_flight l.events)

-- `_total`
unfoldable pub total_of : Kind → State → Events → ℤ
total_of kind state [] = pos 0
total_of kind state ((key, row) ∷ events) =
    let rest = total_of kind state events in
    if same_kind row.kind kind && (row.state =? state) then row.amount +ℤ rest else rest

unfoldable pub wrapped_supply : BridgeLedger → ℤ
wrapped_supply l = total_of deposit done l.events -ℤ total_of burn done l.events

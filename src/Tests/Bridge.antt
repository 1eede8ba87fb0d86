-- ===== src/Tests/Bridge.antt =====
-- Runs of the bridge's ledger.
use obsidion.Prelude.{false, ◌≡◌, refl, List, [], ◌∷◌, some, none}
use obsidion.Prelude.Int.{pos, ◌+ℤ◌}
use obsidion.Prelude.Eq.{ℕ_eq, List_eq}
use obsidion.Prelude.Result.{ok}
use obsidion.Table.{lookup, update, put}
use obsidion.Bridge.Event.{
  Text, Deposit, codes, ready, done, deposit, deposit_payload, Event, deposit_key, str, digits,
}
use obsidion.Bridge.Ledger.{
  BridgeLedger, open_ledger, is_blank, mark_done, wrapped_supply, require_state, set_outcome,
  state_of, mark_in_flight, promote_confirmed, promote_rows, select, record_deposit, record_event,
  is_deep, set_state,
}
use obsidion.Bridge.Ledger.Steps.{
  Operation, sees_deposit, promotes, marks_in_flight, marks_done, abandons, run, perform,
}
use obsidion.Bridge.Ledger.Forward.{IsLater}
use obsidion.Bridge.Ledger.Forward.Runs.{run-keeps_event, run-keeps_done, run-receipt}
use obsidion.Bridge.Ledger.Supply.{mark_done-wrapped_supply}

abbrev pub event_key : Text
event_key = codes "ab:0"

abbrev event : Event
event = record {
  kind = deposit;
  state = ready;
  amount = pos 5;
  payload = deposit_payload (codes "o1") (codes "s1");
  height = some 10;
  receipt = none;
}

abbrev finished : Event
finished = record event { state = done; receipt = some (codes "sig") }

abbrev ledger_with : Event → BridgeLedger
ledger_with row = record { confirmations = 20; events = (event_key, row) ∷ []; destinations = [] }

abbrev calls : List Operation
calls =
    marks_in_flight event_key
    ∷ marks_done event_key (codes "sig")
    ∷ abandons event_key (codes "x")
    ∷ marks_done event_key (codes "other")
    ∷ []

found : (row : Event) → lookup event_key ((event_key, row) ∷ []) ≡ some row
unfolding lookup
found row = refl

run-keeps_event_example :
    (row' : Event) × (lookup event_key ((run calls (ledger_with event)).events) ≡ some row')
    × IsLater event row'
run-keeps_event_example =
    run-keeps_event calls (ledger_with event) event_key event (unfold lookup in refl, tt)
      (found event)

run-keeps_done_example :
    lookup event_key ((run calls (ledger_with finished)).events) ≡ some finished
run-keeps_done_example =
    run-keeps_done calls (ledger_with finished) event_key finished (unfold lookup in refl, tt)
      (found finished) refl

marked : mark_done event_key (codes "sig") (ledger_with event) ≡ ok (ledger_with finished)
unfolding mark_done require_state state_of lookup set_outcome update
marked = refl

mark_done-wrapped_supply_example :
    wrapped_supply (ledger_with finished) ≡ wrapped_supply (ledger_with event) +ℤ pos 5
mark_done-wrapped_supply_example =
    mark_done-wrapped_supply event_key (codes "sig") event (ledger_with event)
      (ledger_with finished) (unfold lookup in refl, tt) (found event) marked

abbrev pub seen : Deposit
seen = record {
  txid = codes "ab";
  index = 0;
  amount = pos 5;
  deposit_address = codes "o1";
  solana_address = codes "s1";
  height = 10;
}

abbrev whole_life : List Operation
whole_life =
    sees_deposit seen
    ∷ promotes 40
    ∷ marks_in_flight event_key
    ∷ marks_done event_key (codes "sig")
    ∷ []

finishes : lookup event_key ((run whole_life (open_ledger 20)).events) ≡ some finished
unfolding run lookup perform mark_done require_state state_of mark_in_flight promote_confirmed
    promote_rows select record_deposit record_event open_ledger put is_deep set_state update
    deposit_key str digits set_outcome
finishes = refl

run-receipt_example :
    (receipt : Text) × (finished.receipt ≡ some receipt) × (is_blank receipt ≡ false)
run-receipt_example = run-receipt whole_life 20 event_key finished finishes refl

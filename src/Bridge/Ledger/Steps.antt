-- ===== src/Bridge/Ledger/Steps.antt =====
-- The bridge's ledger over a sequence of calls. `Operation` names the methods that write, and `run`
-- is a caller that goes on after an exception.
use obsidion.Prelude.{ℕ, List, [], ◌∷◌}
use obsidion.Prelude.Eq.{ℕ_eq, List_eq}
use obsidion.Prelude.Result.{ok, err, ◌>>=◌}
use obsidion.Errors.{Try}
use obsidion.Bridge.Event.{Text, State, State_eq, Deposit, Burn}
use obsidion.Bridge.Ledger.{
  BridgeLedger, assign_destination, record_deposit, record_burn, promote_confirmed, mark_ready,
  mark_in_flight, mark_done, abandon,
}

pub data Operation : Type 0 where
  assigns : Text → Text → Operation
  sees_deposit : Deposit → Operation
  sees_burn : Burn → Operation
  promotes : ℕ → Operation
  marks_ready marks_in_flight : Text → Operation
  marks_done abandons : Text → Text → Operation

abbrev after : Try (State × BridgeLedger) → Try BridgeLedger
after m = m >>= λ r. ok r.1

unfoldable pub perform : Operation → BridgeLedger → Try BridgeLedger
perform (assigns deposit_address solana_address) l =
    assign_destination deposit_address solana_address l
perform (sees_deposit d) l = after (record_deposit d l)
perform (sees_burn b) l = after (record_burn b l)
perform (promotes tip_height) l = ok ((promote_confirmed tip_height l).1)
perform (marks_ready key) l = mark_ready key l
perform (marks_in_flight key) l = mark_in_flight key l
perform (marks_done key receipt) l = mark_done key receipt l
perform (abandons key reason) l = abandon key reason l

abbrev pub or_same : Try BridgeLedger → BridgeLedger → BridgeLedger
or_same (ok l') l = l'
or_same (err e) l = l

unfoldable pub run : List Operation → BridgeLedger → BridgeLedger
run [] l = l
run (operation ∷ operations) l = run operations (or_same (perform operation l) l)

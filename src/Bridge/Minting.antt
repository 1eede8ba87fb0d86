-- ===== src/Bridge/Minting.antt =====
-- Minting against deposits: `MintService` of bridge/minting.py. The Solana side is a parameter, and
-- a pass runs on a machine that can die between any two of its actions.
pub mod Runtime
pub mod Once
pub mod Runs
use obsidion.Prelude.{ℕ, Bool, true, false, List, [], ◌∷◌, ◌++◌, Option, none, some, if◌then◌else◌}
use obsidion.Prelude.Int.{ℤ}
use obsidion.Prelude.Eq.{ℕ_eq, List_eq}
use obsidion.Prelude.Result.{Result, ok, err}
use obsidion.Errors.{Try, key_error}
use obsidion.Bridge.Event.{Text, codes, ready, deposit, Payload, deposit_payload, burn_payload}
use obsidion.Bridge.Ledger.{
  BridgeLedger, set_state, mark_in_flight, mark_done, is_blank, actionable, outstanding,
}
use obsidion.Bridge.Minting.Runtime.{
  Process, ◌>>=◌, ◌>>◌, give, raise, on_ledger, on_cluster, ledger_now,
}

-- `SolanaMinter` over the states of a cluster. An exception is its text; the cluster may be in any
-- state after a `mint` that raises, and `find_mint` only looks.
pub record SolanaMinter (W : Type 0) : Type 0 where
  pub mint : Text → ℤ → Text → W → Result Text Text × W
  pub find_mint : Text → W → Result Text (Option Text)

-- A cluster: what it answers, and what becomes of it on its own while the bridge does something
-- else or nothing. The number tells the times apart, in a pass by the actions that are left. Between
-- two calls a transaction may land or be dropped, and lookups may begin to fail or recover.
pub record Cluster (W : Type 0) : Type 0 where
  pub minter : SolanaMinter W
  pub later : ℕ → W → W

pub record MintReport : Type 0 where
  pub minted : List (Text × Text)
  pub recovered : List (Text × Text)
  pub failed : List (Text × Text)
  pub unresolved : List Text

abbrev pub empty_report : MintReport
empty_report = record { minted = []; recovered = []; failed = []; unresolved = [] }

-- `blocked`
abbrev pub is_blocked : MintReport → Bool
is_blocked report = elim report.unresolved [ [] ↦ false | key ∷ keys ↦ true ]

unfoldable pub memo_for : Text → Text
memo_for key = codes "obsd-bridge:" ++ key

-- `payload["solana_address"]`
abbrev pub destination_of : Payload → Try Text
destination_of (deposit_payload deposit_address solana_address) = ok solana_address
destination_of (burn_payload obsidion_address) = err key_error

-- The direct `UPDATE` of `_resolve_in_flight`, with its `commit`.
unfoldable pub return_to_queue : Text → BridgeLedger → Try BridgeLedger
return_to_queue key l = ok (record l { events = set_state key ready l.events })

module _ {W : Type 0} (solana : Cluster W) where
  -- What `_resolve_in_flight` does about one deposit, once the cluster has answered.
  unfoldable pub resolve_as : Text → Result Text (Option Text) → MintReport → Process W MintReport
  resolve_as key (err reason) report = give (record report {
    unresolved = report.unresolved ++ key ∷ [];
    failed = report.failed ++ (key, codes "lookup failed: " ++ reason) ∷ [];
  })
  resolve_as key (ok none) report = on_ledger (return_to_queue key) >> give report
  resolve_as key (ok (some signature)) report =
      if is_blank signature
      then on_ledger (return_to_queue key) >> give report
      else on_ledger (mark_done key signature)
        >> give (record report { recovered = report.recovered ++ (key, signature) ∷ [] })

  unfoldable pub resolve_all : List (Text × ℤ × Payload) → MintReport → Process W MintReport
  resolve_all [] report = give report
  resolve_all ((key, amount, payload) ∷ rows) report = do
    answer ← on_cluster solana.later (λ w. (solana.minter.find_mint (memo_for key) w, w))
    report' ← resolve_as key answer report
    resolve_all rows report'

  -- The rest of `_mint_one`, once the cluster has answered.
  unfoldable pub mint_as : Text → Result Text Text → MintReport → Process W MintReport
  mint_as key (err reason) report =
      give (record report { failed = report.failed ++ (key, reason) ∷ [] })
  mint_as key (ok signature) report =
      if is_blank signature
      then give (record report {
        failed = report.failed ++ (key, codes "minter returned no signature") ∷ [];
      })
      else on_ledger (mark_done key signature)
        >> give (record report { minted = report.minted ++ (key, signature) ∷ [] })

  -- `_mint_one`: the intent first.
  unfoldable pub mint_one : Text → ℤ → Text → MintReport → Process W MintReport
  mint_one key amount destination report = do
    on_ledger (mark_in_flight key)
    answer ← on_cluster solana.later (solana.minter.mint destination amount (memo_for key))
    mint_as key answer report

  unfoldable pub mint_row : Text × ℤ × Payload → MintReport → Process W MintReport
  mint_row (key, amount, payload) report = elim (destination_of payload) [
    | err e ↦ raise e
    | ok destination ↦ mint_one key amount destination report
  ]

  unfoldable pub mint_all : List (Text × ℤ × Payload) → MintReport → Process W MintReport
  mint_all [] report = give report
  mint_all (row ∷ rows) report = do report' ← mint_row row report; mint_all rows report'

  -- The second half of `run_once`, unless something is unresolved.
  unfoldable pub mint_unless_blocked : MintReport → Process W MintReport
  mint_unless_blocked report =
      if is_blocked report
      then give report
      else ledger_now >>= λ l. mint_all (actionable deposit l) report

  unfoldable pub run_once : Process W MintReport
  run_once = do
    l ← ledger_now
    report ← resolve_all (outstanding deposit l) empty_report
    mint_unless_blocked report

-- ===== src/Mempool/Select.antt =====
-- `Mempool.select` of obsidion/mempool.py. A round that makes progress chooses an entry, so there is
-- at most one round for each entry, and one more.
pub mod Choice
use obsidion.Prelude.{
  ℕ, zero, suc, ◌+◌, Bool, true, false, ◌&&◌, ◌||◌, not, List, [], ◌∷◌, ◌++◌, Bytes, length, ltb,
  if◌then◌else◌,
}
use obsidion.Prelude.Int.{ltb_ℤ, eqb_ℤ}
use obsidion.Prelude.Result.{ok, err, ◌>>=◌}
use obsidion.Errors.{Try, out_of_fuel}
use obsidion.Crypto.{Platform}
use obsidion.Transaction.Model.{OutPoint, TxIn, TxOut, contains}
use obsidion.Transaction.Signing.{txid}
use obsidion.Consensus.Rules.{has_id}
use obsidion.Storage.{Utxos, get_utxo}
use obsidion.Mempool.{MempoolEntry, Mempool, fee_rate, is_there, sort_by, values}

-- The local variables of `select`.
pub record Selection : Type 0 where
  pub chosen : List MempoolEntry
  pub chosen_ids : List Bytes
  pub provided : List OutPoint
  pub used : ℕ

-- `key=lambda e: (e.fee_rate, e.fee), reverse=True`
abbrev pub best_first : MempoolEntry → MempoolEntry → Bool
best_first a b =
    ltb_ℤ (fee_rate b) (fee_rate a) || (eqb_ℤ (fee_rate a) (fee_rate b) && not (ltb_ℤ a.fee b.fee))

-- `satisfiable`
unfoldable pub is_satisfiable : Utxos → List OutPoint → List TxIn → Bool
is_satisfiable utxos provided [] = true
is_satisfiable utxos provided (i ∷ inputs) =
    (contains i.prevout provided || is_there (get_utxo i.prevout utxos))
    && is_satisfiable utxos provided inputs

-- `provided.add(...)` for the outputs from one on.
unfoldable pub provide : Bytes → ℕ → List TxOut → List OutPoint → List OutPoint
provide id index [] provided = provided
provide id index (o ∷ outputs) provided =
    provide id (suc index) outputs (record { txid = id; index = index } ∷ provided)

abbrev pub choose : Bytes → MempoolEntry → Selection → Selection
choose id entry s = record {
  chosen = s.chosen ++ entry ∷ [];
  chosen_ids = id ∷ s.chosen_ids;
  provided = provide id 0 entry.tx.outputs s.provided;
  used = s.used + entry.size;
}

abbrev pub nothing_chosen : Selection
nothing_chosen = record { chosen = []; chosen_ids = []; provided = []; used = 0 }

module _ (c : Platform) (max_bytes : ℕ) (utxos : Utxos) where
  -- One entry: whether it is chosen, and the variables after it.
  unfoldable pub consider : MempoolEntry → Selection → Try (Bool × Selection)
  consider entry s = do
    id ← txid c entry.tx
    if has_id id s.chosen_ids || ltb max_bytes (s.used + entry.size)
        then ok (false, s)
        else (if is_satisfiable utxos s.provided entry.tx.inputs
            then ok (true, choose id entry s)
            else ok (false, s))

  -- One round over the ranked entries.
  unfoldable pub select_round : List MempoolEntry → Selection → Try (Bool × Selection)
  select_round [] s = ok (false, s)
  select_round (entry ∷ ranked) s = do
    (progress, s') ← consider entry s
    (more, s'') ← select_round ranked s'
    ok (progress || more, s'')

  unfoldable pub select_loop : ℕ → List MempoolEntry → Selection → Try (List MempoolEntry)
  select_loop zero ranked s = err out_of_fuel
  select_loop (suc rounds) ranked s = do
    (progress, s') ← select_round ranked s
    let rest = select_loop rounds ranked s'
    if progress then rest else ok s'.chosen

  unfoldable pub select : Mempool → Try (List MempoolEntry)
  select pool =
      let ranked = sort_by best_first (values pool.entries) in
      select_loop (suc (length ranked)) ranked nothing_chosen

-- ===== src/ChainState/Connect.antt =====
-- Connecting and disconnecting a block: `_connect`, `_add_outputs` and `_disconnect` of
-- obsidion/chainstate.py. `none` rows and `assert`s are written out.
pub mod Value
use obsidion.Prelude.{
  ℕ, zero, suc, ◌+◌, Bool, true, false, ◌&&◌, not, List, [], ◌∷◌, ◌++◌, reverse, Bytes, length,
  Option, none, some, ltb, if◌then◌else◌,
}
use obsidion.Prelude.Int.{ℤ, pos, ◌+ℤ◌, ◌-ℤ◌, ltb_ℤ}
use obsidion.Prelude.Result.{ok, err, ◌>>=◌, ◌>>◌, raise_if, or_raise}
use obsidion.Errors.{
  Try, consensus_error, assertion_error, struct_error, except_value, missing_output,
  immature_coinbase, bad_signature, outputs_exceed_inputs, overwrites_output,
}
use obsidion.Params.{NetworkParams}
use obsidion.Crypto.{Platform}
use obsidion.Wire.{read_many, join_map}
use obsidion.Transaction.Model.{
  OutPoint, OutPoint_eq, TxIn, TxOut, Transaction, is_coinbase, total_output_value,
}
use obsidion.Transaction.Varint.{write_varint, read_varint}
use obsidion.Transaction.Signing.{txid, verify_input}
use obsidion.Block.Model.{Block, block_hash, coinbase, deserialize_block}
use obsidion.Consensus.Rules.{check_coinbase_reward}
use obsidion.Table
use obsidion.Storage.{
  UtxoEntry, Utxos, ChainDb, get_utxo, delete_utxo, add_utxo, put_undo, get_undo, get_block_raw,
  set_active,
}
use obsidion.ChainState.Undo.{UndoEntry, pack_undo, unpack_undo}

-- The variables of the loops in `_connect`: the table, the undo entries so far, and an amount (the
-- inputs of the transaction, or the fees of the block).
pub record Progress : Type 0 where
  pub utxos : Utxos
  pub undo_entries : List UndoEntry
  pub amount : ℤ

-- `_add_outputs`, from the output at `index` on.
unfoldable pub add_outputs : Bytes → ℕ → Bool → ℕ → List TxOut → Utxos → Try Utxos
add_outputs id height from_coinbase index [] utxos = ok utxos
add_outputs id height from_coinbase index (o ∷ outputs) utxos = do
  utxos' ←
      or_raise
        (Table.insert (record { txid = id; index = index })
          (record {
            amount = o.amount;
            pubkey_hash = o.pubkey_hash;
            height = height;
            is_coinbase = from_coinbase;
          })
          utxos)
        (consensus_error overwrites_output)
  add_outputs id height from_coinbase (suc index) outputs utxos'

-- `block.transactions[1:]`
unfoldable pub after_first : List Transaction → List Transaction
after_first [] = []
after_first (tx ∷ transactions) = transactions

module _ (c : Platform) (p : NetworkParams) (height : ℕ) where
  -- One input of a transaction. `height - utxo_height < maturity` is a sum on the other side.
  unfoldable pub connect_input : Transaction → ℕ → TxIn → Progress → Try Progress
  connect_input tx index tx_input s = do
    row ← or_raise (get_utxo tx_input.prevout s.utxos) (consensus_error missing_output)
    raise_if (row.is_coinbase && ltb height (row.height + p.coinbase_maturity))
        (consensus_error immature_coinbase)
    verified ← verify_input c tx index row.pubkey_hash row.amount
    raise_if (not verified) (consensus_error bad_signature)
    pack_undo (record { outpoint = tx_input.prevout; entry = row })
    ok (record {
      utxos = delete_utxo tx_input.prevout s.utxos;
      undo_entries = s.undo_entries ++ record { outpoint = tx_input.prevout; entry = row } ∷ [];
      amount = s.amount +ℤ row.amount;
    })

  unfoldable pub connect_inputs : Transaction → ℕ → List TxIn → Progress → Try Progress
  connect_inputs tx index [] s = ok s
  connect_inputs tx index (i ∷ inputs) s = do
    s' ← connect_input tx index i s
    connect_inputs tx (suc index) inputs s'

  -- One transaction after the coinbase; the amount is the fees so far.
  unfoldable pub connect_transaction : Transaction → Progress → Try Progress
  connect_transaction tx s = do
    s' ← connect_inputs tx 0 tx.inputs (record s { amount = pos 0 })
    raise_if (ltb_ℤ s'.amount (total_output_value tx)) (consensus_error outputs_exceed_inputs)
    id ← txid c tx
    utxos ← add_outputs id height false 0 tx.outputs s'.utxos
    ok (record {
      utxos = utxos;
      undo_entries = s'.undo_entries;
      amount = s.amount +ℤ (s'.amount -ℤ total_output_value tx);
    })

  unfoldable pub connect_transactions : List Transaction → Progress → Try Progress
  connect_transactions [] s = ok s
  connect_transactions (tx ∷ transactions) s = do
    s' ← connect_transaction tx s
    connect_transactions transactions s'

  -- The table after the block, with the undo entries and the fees.
  unfoldable pub connect_utxos : Block → Utxos → Try Progress
  connect_utxos block utxos = do
    s ←
        connect_transactions (after_first block.transactions)
          (record { utxos = utxos; undo_entries = []; amount = pos 0 })
    check_coinbase_reward block height s.amount p
    tx ← coinbase block
    id ← txid c tx
    utxos' ← add_outputs id height true 0 tx.outputs s.utxos
    ok (record s { utxos = utxos' })

  -- `_connect`
  unfoldable pub connect : Block → ChainDb → Try ChainDb
  connect block db = do
    s ← connect_utxos block db.utxos
    hash ← block_hash c block
    count ← write_varint (length s.undo_entries)
    entries ← join_map pack_undo s.undo_entries
    ok (put_undo hash (count ++ entries) (record db { utxos = s.utxos }))

-- The first pass of `_disconnect`: what the block spent comes back.
unfoldable pub restore : List UndoEntry → Utxos → Try Utxos
restore [] utxos = ok utxos
restore (u ∷ entries) utxos = do utxos' ← add_utxo u.outpoint u.entry utxos; restore entries utxos'

-- `for index in range(count)`: the outputs of one transaction go.
unfoldable pub delete_outputs : Bytes → ℕ → List TxOut → Utxos → Utxos
delete_outputs id index [] utxos = utxos
delete_outputs id index (o ∷ outputs) utxos =
    delete_outputs id (suc index) outputs (delete_utxo (record { txid = id; index = index }) utxos)

not_coinbases : List Transaction → List Transaction
not_coinbases [] = []
not_coinbases (tx ∷ transactions) =
    let rest = not_coinbases transactions in if is_coinbase tx then rest else tx ∷ rest

module _ (c : Platform) where
  -- The second pass, over a list that is reversed already.
  unfoldable pub delete_created : List Transaction → Utxos → Try Utxos
  delete_created [] utxos = ok utxos
  delete_created (tx ∷ transactions) utxos = do
    id ← txid c tx
    delete_created transactions (delete_outputs id 0 tx.outputs utxos)

  -- Both passes.
  unfoldable pub disconnect_utxos : Block → List UndoEntry → Utxos → Try Utxos
  disconnect_utxos block entries utxos = do
    restored ← restore entries utxos
    delete_created (reverse block.transactions) restored

  -- `_disconnect`: the database after it, and the transactions that fall out.
  unfoldable pub disconnect : Bytes → ChainDb → Try (List Transaction × ChainDb)
  unfolding not_coinbases
  disconnect hash db = do
    raw ← or_raise (get_block_raw hash db) assertion_error
    block ← deserialize_block raw
    undo_raw ← or_raise (get_undo hash db) assertion_error
    (count, offset) ← read_varint undo_raw 0
    (entries, _) ← except_value (read_many unpack_undo count undo_raw offset) struct_error
    utxos ← disconnect_utxos block entries db.utxos
    ok (not_coinbases block.transactions, set_active hash false (record db { utxos = utxos }))

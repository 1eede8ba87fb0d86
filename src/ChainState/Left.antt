-- ===== src/ChainState/Left.antt =====
-- What `_reorg_to`, `_connect` and `_disconnect` of obsidion/chainstate.py have written to the tables
-- by the time they return or raise: the statements of a transaction take effect one by one, and an
-- exception leaves those before it in place, for `accept_block` to roll back.
use obsidion.Prelude.{
  ℕ, zero, suc, Bool, true, false, List, [], ◌∷◌, reverse, Bytes, leb, if◌then◌else◌,
}
use obsidion.Prelude.Int.{pos, ltb_ℤ}
use obsidion.Prelude.Eq.{◌=?◌, ℕ_eq, List_eq}
use obsidion.Prelude.Result.{ok, err, ◌>>=◌, or_raise}
use obsidion.Errors.{Try, assertion_error}
use obsidion.Params.{NetworkParams}
use obsidion.Crypto.{Platform}
use obsidion.Transaction.Model.{TxIn, TxOut, Transaction, total_output_value}
use obsidion.Transaction.Varint.{read_varint}
use obsidion.Transaction.Signing.{txid}
use obsidion.Block.Model.{Block, coinbase, deserialize_block, serialize_block}
use obsidion.Consensus.Rules.{check_coinbase_reward}
use obsidion.Wire.{read_many}
use obsidion.Storage.{
  IndexEntry, Utxos, ChainDb, add_utxo, get_block_raw, get_undo, get_index, set_active, set_meta,
  put_block, put_index,
}
use obsidion.ChainState.Undo.{unpack_undo}
use obsidion.ChainState.Connect.{
  Progress, after_first, connect_inputs, connect_input, connect_transaction, connect_transactions,
  connect, restore, delete_outputs, disconnect,
}
use obsidion.ChainState.Reorg.{tip_key, tip_hash, branch_loop, disconnect_loop, reorg_to}

-- What is there if a step raises, and if it does not.
abbrev pub reached : {A B : Type 0} → Try A → B → (A → B) → B
reached (err e) here next = here
reached (ok a) here next = next a

unfoldable pub add_outputs_left : Bytes → ℕ → Bool → ℕ → List TxOut → Utxos → Utxos
add_outputs_left id height from_coinbase index [] utxos = utxos
add_outputs_left id height from_coinbase index (o ∷ outputs) utxos =
    reached
      (add_utxo (record { txid = id; index = index })
        (record {
          amount = o.amount;
          pubkey_hash = o.pubkey_hash;
          height = height;
          is_coinbase = from_coinbase;
        })
        utxos)
      utxos (λ utxos'. add_outputs_left id height from_coinbase (suc index) outputs utxos')

module _ (c : Platform) (p : NetworkParams) (height : ℕ) where
  unfoldable pub connect_inputs_left : Transaction → ℕ → List TxIn → Progress → Utxos
  connect_inputs_left tx index [] s = s.utxos
  connect_inputs_left tx index (i ∷ inputs) s =
      reached (connect_input c p height tx index i s) s.utxos
        (λ s'. connect_inputs_left tx (suc index) inputs s')

  unfoldable pub connect_transaction_left : Transaction → Progress → Utxos
  connect_transaction_left tx s =
      let first = record s { amount = pos 0 } in
      reached (connect_inputs c p height tx 0 tx.inputs first)
        (connect_inputs_left tx 0 tx.inputs first)
        (λ s'.
          if ltb_ℤ s'.amount (total_output_value tx)
          then s'.utxos
          else reached (txid c tx) s'.utxos
              (λ id. add_outputs_left id height false 0 tx.outputs s'.utxos))

  unfoldable pub connect_transactions_left : List Transaction → Progress → Utxos
  connect_transactions_left [] s = s.utxos
  connect_transactions_left (tx ∷ transactions) s =
      reached (connect_transaction c p height tx s) (connect_transaction_left tx s)
        (λ s'. connect_transactions_left transactions s')

  unfoldable pub connect_utxos_left : Block → Utxos → Utxos
  connect_utxos_left block utxos =
      let first : Progress = record { utxos = utxos; undo_entries = []; amount = pos 0 } in
      let transactions = after_first block.transactions in
      reached (connect_transactions c p height transactions first)
        (connect_transactions_left transactions first)
        (λ s. reached (check_coinbase_reward block height s.amount p) s.utxos (λ u.
          reached (coinbase block) s.utxos (λ tx.
            reached (txid c tx) s.utxos
              (λ id. add_outputs_left id height true 0 tx.outputs s.utxos))))

  unfoldable pub connect_left : Block → ChainDb → ChainDb
  connect_left block db =
      reached (connect c p height block db)
        (record db { utxos = connect_utxos_left block db.utxos }) (λ db'. db')

-- The undo record is read entry by entry.
unfoldable pub restore_left : ℕ → Bytes → ℕ → Utxos → Utxos
restore_left zero undo_raw offset utxos = utxos
restore_left (suc count) undo_raw offset utxos =
    reached (unpack_undo undo_raw offset) utxos (λ (u, next).
      reached (add_utxo u.outpoint u.entry utxos) utxos
        (λ utxos'. restore_left count undo_raw next utxos'))

module _ (c : Platform) where
  unfoldable pub delete_created_left : List Transaction → Utxos → Utxos
  delete_created_left [] utxos = utxos
  delete_created_left (tx ∷ transactions) utxos =
      reached (txid c tx) utxos
        (λ id. delete_created_left transactions (delete_outputs id 0 tx.outputs utxos))

  unfoldable pub restore_all : ℕ → Bytes → ℕ → Utxos → Try Utxos
  restore_all count undo_raw offset utxos = do
    (entries, end) ← read_many unpack_undo count undo_raw offset
    restore entries utxos

  unfoldable pub disconnect_left : Bytes → ChainDb → ChainDb
  disconnect_left hash db = reached (or_raise (get_block_raw hash db) assertion_error) db (λ raw.
      reached (deserialize_block raw) db (λ block.
        reached (or_raise (get_undo hash db) assertion_error) db (λ undo_raw.
          reached (read_varint undo_raw 0) db (λ (count, offset).
            reached (restore_all count undo_raw offset db.utxos)
              (record db { utxos = restore_left count undo_raw offset db.utxos })
              (λ restored.
                reached (disconnect c hash db)
                  (record db { utxos = delete_created_left (reverse block.transactions) restored })
                  (λ (transactions, db'). db'))))))

  unfoldable pub disconnect_loop_left : ℕ → Bytes → Bytes → ChainDb → ChainDb
  disconnect_loop_left zero hash fork_hash db = db
  disconnect_loop_left (suc fuel) hash fork_hash db =
      let rest = reached (disconnect c hash db) (disconnect_left hash db) (λ (transactions, db').
        reached (or_raise (get_index hash db') assertion_error) db'
          (λ entry. disconnect_loop_left fuel entry.prev_hash fork_hash db')) in
      if hash =? fork_hash then db else rest

  module _ (p : NetworkParams) where
    unfoldable pub connect_loop_left : List IndexEntry → ChainDb → ChainDb
    connect_loop_left [] db = db
    connect_loop_left (entry ∷ branch) db =
        reached (or_raise (get_block_raw entry.hash db) assertion_error) db (λ raw.
          reached (deserialize_block raw) db (λ block.
            reached (connect c p entry.height block db) (connect_left c p entry.height block db)
              (λ db'. connect_loop_left branch (set_active entry.hash true db'))))

    unfoldable pub reorg_left : IndexEntry → ℕ → ChainDb → ChainDb
    reorg_left candidate tip_height db =
        reached (branch_loop (suc candidate.height) candidate [] db) db (λ (branch, fork).
          reached (tip_hash db) db (λ hash.
            reached (disconnect_loop c (suc tip_height) hash fork.hash [] db)
              (disconnect_loop_left (suc tip_height) hash fork.hash db)
              (λ (transactions, db'). connect_loop_left branch db')))

    -- The writes of `accept_block` between `begin` and the end of the transaction.
    unfoldable pub store_left : Block → IndexEntry → IndexEntry → ChainDb → ChainDb
    store_left block entry tip db = reached (serialize_block block) db (λ raw.
        let stored = put_index entry (put_block entry.hash raw db) in
        if leb entry.cumwork tip.cumwork
        then stored
        else reached (reorg_to c p entry tip.height stored) (reorg_left entry tip.height stored)
            (λ (moved, db'). set_meta tip_key entry.hash db'))

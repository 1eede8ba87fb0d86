-- ===== src/ChainState/Accept.antt =====
-- Folding a block into the chain: `accept_block`, `_remember_invalid` and `_ensure_genesis` of
-- obsidion/chainstate.py, with their transactions.
pub mod Cases
pub mod Tip
pub mod Ends
pub mod Runs
use obsidion.Prelude.{
  ℕ, zero, suc, ◌+◌, not, Bool, true, false, List, [], ◌∷◌, Bytes, Option, none, some, leb,
  if◌then◌else◌, replicate,
}
use obsidion.Prelude.Result.{ok, err, ◌>>=◌, ◌>>◌, or_raise, raise_if}
use obsidion.Errors.{
  Error, Try, consensus_error, orphan_error, previously_rejected, invalid_parent, integrity_error,
}
use obsidion.Params.{NetworkParams}
use obsidion.Crypto.{Platform}
use obsidion.Transaction.Model.{Transaction, TxOut, OutPoint}
use obsidion.Transaction.Varint.{write_varint}
use obsidion.Transaction.Signing.{txid}
use obsidion.Block.Model.{Block, block_hash, work, coinbase, serialize_block}
use obsidion.Consensus.Rules.{
  check_block_structure, check_coinbase_height, check_expected_bits, check_timestamp,
}
use obsidion.Storage.{
  Status, valid, invalid, IndexEntry, UtxoEntry, Utxos, ChainDb, empty_db, put_block, put_index,
  get_index, get_meta, set_meta, put_undo, add_utxo, Connection, idle, begin, write, commit,
  rollback,
}
use obsidion.ChainState.Genesis.{create_genesis_block}
use obsidion.ChainState.Left.{store_left}
use obsidion.ChainState.Reorg.{
  tip_key, tip_entry, expected_bits_for_next, recent_timestamps, reorg_to,
}

pub data AcceptStatus : Type 0 where
  connected reorged sidechain duplicate : AcceptStatus

pub record ConnectResult : Type 0 where
  pub status : AcceptStatus
  pub disconnected : List Transaction
  pub connected_hashes : List Bytes

-- How a call ends, with the connection that it leaves. After an exception other than
-- `ConsensusError` between `begin` and `commit`, that has a transaction open.
pub data Outcome : Type 0 where
  returned : ConnectResult → Connection → Outcome
  raised : Error → Connection → Outcome

-- `except ConsensusError`
abbrev pub is_consensus : Error → Bool
is_consensus (consensus_error reason) = true
is_consensus orphan_error = true
is_consensus other = false

abbrev pub left_by : Outcome → Connection
left_by (returned result s) = s
left_by (raised e s) = s

-- A node whose call has left a transaction open is started again.
abbrev pub restarted : Connection → Connection
restarted s = if s.in_transaction then idle s.committed else s

unfoldable pub make_entry : Block → Bytes → IndexEntry → IndexEntry
make_entry block hash parent = record {
  hash = hash;
  prev_hash = parent.hash;
  height = suc parent.height;
  cumwork = parent.cumwork + work block.header;
  timestamp = block.header.timestamp;
  bits = block.header.bits;
  active = false;
  status = valid;
}

abbrev pub is_invalid : Status → Bool
is_invalid valid = false
is_invalid invalid = true

-- `_remember_invalid` between `begin` and `commit`: the block is stored with its verdict.
unfoldable pub remember_invalid : Block → IndexEntry → ChainDb → Try ChainDb
remember_invalid block entry db = do
  raw ← serialize_block block
  ok (put_index (record entry { status = invalid }) (put_block entry.hash raw db))

-- `_remember_invalid` from `begin` on, and the `raise` after it. The block is serialized before the
-- first write.
unfoldable pub after_verdict : Error → Connection → Try ChainDb → Outcome
after_verdict e s (ok db) = raised e (commit (write db s))
after_verdict e s (err e') = raised e' s

-- The end of the transaction: `commit`, `rollback` after a `ConsensusError`, or neither after another
-- exception. `left` is what was written by the time of the exception.
unfoldable pub settle : Connection → ChainDb → Try (ConnectResult × ChainDb) → Outcome
settle s left (ok (result, db)) = returned result (commit (write db s))
settle s left (err e) =
    if is_consensus e then raised e (rollback (write left s)) else raised e (write left s)

abbrev status_of : List Transaction → AcceptStatus
status_of [] = connected
status_of (tx ∷ transactions) = reorged

module _ (c : Platform) (p : NetworkParams) where
  -- The rules that need no chain, and the parent.
  unfoldable pub find_parent : Block → ChainDb → Try IndexEntry
  find_parent block db = do
    check_block_structure c block p
    parent ← or_raise (get_index block.header.prev_hash db) orphan_error
    raise_if (is_invalid parent.status) (consensus_error invalid_parent)
    ok parent

  -- The rules that the hash commits to.
  unfoldable pub check_context : Block → IndexEntry → ℕ → ChainDb → Try Unit
  check_context block parent now db = do
    check_coinbase_height block (suc parent.height)
    expected ← expected_bits_for_next p parent.hash db
    check_expected_bits block.header expected
    check_timestamp block.header (recent_timestamps p parent db) now p

  -- Between `begin` and `commit`.
  unfoldable pub store_block :
      Block → IndexEntry → IndexEntry → ChainDb → Try (ConnectResult × ChainDb)
  store_block block entry tip db = do
    raw ← serialize_block block
    let stored = put_index entry (put_block entry.hash raw db)
    if leb entry.cumwork tip.cumwork
        then ok (record { status = sidechain; disconnected = []; connected_hashes = [] }, stored)
        else (do
          ((transactions, hashes), db') ← reorg_to c p entry tip.height stored
          ok (
            record {
              status = status_of transactions;
              disconnected = transactions;
              connected_hashes = hashes;
            },
            set_meta tip_key entry.hash db',
          ))

  -- From the check of the context on.
  unfoldable pub accept_entry : Block → IndexEntry → IndexEntry → ℕ → Connection → Outcome
  accept_entry block parent entry now s = elim (check_context block parent now s.working) [
    | err e ↦
        (if is_consensus e
          then elim (begin s) [
            | err e' ↦ raised e' s
            | ok opened ↦ after_verdict e opened (remember_invalid block entry opened.working)
          ]
          else raised e s)
    | ok done ↦ elim (tip_entry s.working) [
      | err e ↦ raised e s
      | ok tip ↦ elim (begin s) [
        | err e ↦ raised e s
        | ok opened ↦
            settle opened (store_left c p block entry tip opened.working)
              (store_block block entry tip opened.working)
      ]
    ]
  ]

  -- A block that is not in the index yet.
  unfoldable pub accept_new : Block → Bytes → ℕ → Connection → Outcome
  accept_new block hash now s = elim (find_parent block s.working) [
    | err e ↦ raised e s
    | ok parent ↦ accept_entry block parent (make_entry block hash parent) now s
  ]

  abbrev accept_known : IndexEntry → Connection → Outcome
  accept_known existing s =
      if is_invalid existing.status
      then raised (consensus_error previously_rejected) s
      else returned (record { status = duplicate; disconnected = []; connected_hashes = [] }) s

  -- `accept_block` at a time in whole seconds.
  unfoldable pub accept_block : Block → ℕ → Connection → Outcome
  accept_block block now s = elim (block_hash c block) [
    | err e ↦ raised e s
    | ok hash ↦ elim (get_index hash s.working) [
      | none ↦ accept_new block hash now s
      | some existing ↦ accept_known existing s
    ]
  ]

  -- The outputs of the genesis coinbase: here a taken key is not caught.
  unfoldable pub add_genesis_outputs : Bytes → ℕ → List TxOut → Utxos → Try Utxos
  add_genesis_outputs id index [] utxos = ok utxos
  add_genesis_outputs id index (o ∷ outputs) utxos = do
    utxos' ←
        add_utxo (record { txid = id; index = index })
          (record {
            amount = o.amount;
            pubkey_hash = o.pubkey_hash;
            height = 0;
            is_coinbase = true;
          })
          utxos
    add_genesis_outputs id (suc index) outputs utxos'

  abbrev genesis_entry : Block → Bytes → IndexEntry
  genesis_entry genesis hash = record {
    hash = hash;
    prev_hash = replicate 32 0;
    height = 0;
    cumwork = work genesis.header;
    timestamp = genesis.header.timestamp;
    bits = genesis.header.bits;
    active = true;
    status = valid;
  }

  -- The writes of `_ensure_genesis` at a database without a tip.
  unfoldable pub write_genesis : ChainDb → Try ChainDb
  write_genesis db = do
    genesis ← create_genesis_block c p
    hash ← block_hash c genesis
    raw ← serialize_block genesis
    tx ← coinbase genesis
    id ← txid c tx
    utxos ← add_genesis_outputs id 0 tx.outputs db.utxos
    empty_undo ← write_varint 0
    let stored = put_index (genesis_entry genesis hash) (put_block hash raw db)
    ok (set_meta tip_key hash (put_undo hash empty_undo (record stored { utxos = utxos })))

  -- An exception here ends the node, and nothing is committed.
  unfoldable pub ensure_genesis : Connection → Try Connection
  ensure_genesis s = elim (get_meta tip_key s.working) [
    | none ↦ (do opened ← begin s; db ← write_genesis opened.working; ok (commit (write db opened)))
    | some hash ↦ ok s
  ]

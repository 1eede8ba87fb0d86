-- ===== src/Tests/Chain.antt =====
-- Offers to a chain of five blocks, and a block that is connected and disconnected.
use obsidion.Prelude.{
  get_elem?, All, ap, ℕ, ◌+◌, ◌≡◌, ◌≤◌, refl, true, List, [], ◌∷◌, ◌++◌, Bytes, replicate, none,
  some,
}
use obsidion.Prelude.Int.{pos, ◌+ℤ◌}
use obsidion.Prelude.Result.{ok}
use obsidion.Errors.{consensus_error, excess_reward}
use obsidion.Params.{regtest}
use obsidion.Table.{lookup, delete, insert, put, update}
use obsidion.Prelude.Eq.{List_eq, ℕ_eq}
use obsidion.Transaction.Model.{
  OutPoint_eq, check_structure, is_coinbase, is_coinbase_input, sum_amounts, total_output_value,
}
use obsidion.Transaction.Model.{OutPoint, Transaction}
use obsidion.Block.Model.{
  Block, txids, block_hash, block_size, claimed_height, coinbase, computed_merkle_root,
  deserialize_block, deserialize_header, header_hash, pow_digest, satisfies_pow, serialize_block,
  serialize_header, txids_of, unpack_header, work,
}
use obsidion.Storage.{
  valid, IndexEntry, ChainDb, get_index, Utxos, delete_utxo, get_block_raw, get_meta, get_utxo,
  put_block, put_index, put_undo, set_active, set_meta, idle, begin, write, commit, rollback,
}
use obsidion.Consensus.Rules.Accepted.{AreDistinct}
use obsidion.ChainState.Connect.{
  disconnect_utxos, add_outputs, after_first, connect, connect_input, connect_inputs,
  connect_transaction, connect_transactions, connect_utxos,
}
use obsidion.ChainState.Reorg.{
  tip_key, tip_entry, ancestor_at_height, ancestor_loop, branch_loop, connect_loop, disconnect_loop,
  expected_bits_for_next, recent_loop, recent_timestamps, reorg_to, tip_hash,
}
use obsidion.ChainState.Left.{
  store_left, reorg_left, connect_loop_left, connect_left, connect_utxos_left,
  connect_transactions_left, disconnect_loop_left,
}
use obsidion.ChainState.Index.{SameBlock}
use obsidion.ChainState.Accept.{
  ConnectResult, Outcome, returned, raised, left_by, accept_block, duplicate, accept_entry,
  accept_new, check_context, find_parent, make_entry, remember_invalid, store_block, settle,
  after_verdict,
}
use obsidion.ChainState.Accept.Runs.{
  accept_all, accept_all-work, accept_block-returned, accept_block-raised, HasRaised,
}
use obsidion.ChainState.Accept.Ends.{HasReturned}
use obsidion.ChainState.Restore.RoundTrip.{disconnect_utxos-connect_utxos}
use obsidion.Consensus.Rules.{
  check_block_structure, check_coinbase_first, check_coinbase_height, check_coinbase_reward,
  check_expected_bits, check_header_pow, check_no_coinbase, check_timestamp, check_transactions,
  has_duplicates,
}
use obsidion.Transaction.Varint.{read_varint, with_marker, write_varint}
use obsidion.Block.Compact.{compact_to_target}
use obsidion.Crypto.{hash160, hash_to_int, pow_hash, scrypt_pow, sha256d, sign}
use obsidion.Merkle.{
  ends_in_pair, even_row, hash_pairs, merkle_root, pair_hash, repeat_last, root_loop,
}
use obsidion.Transaction.Signing.{
  digest_at, encoded_height, set_input, sign_input, signature_hash, signature_preimage,
  signed_inputs, txid,
}
use obsidion.Consensus.Emission.{era_reward, reward, subsidy}
use obsidion.Consensus.Difficulty.{
  expected_bits, median_time_past, retarget_period_start_height, sorted,
}
use obsidion.Tests.Fixtures.{platform, one_row, coinbase_tx}
use obsidion.Tests.Spending.{signed_tx, connects}
use obsidion.Wire.{
  read_exactly, unpack_unsigned, join_map, pack_signed, pack_unsigned, read_many, unpack_signed,
}
use obsidion.Transaction.Codec.{
  deserialize_input, deserialize_outpoint, deserialize_output, read_unsigned, read_varbytes, blank,
  deserialize_from, read_signed, serialize, serialize_input, serialize_outpoint, serialize_output,
  serialize_parts, write_varbytes, written_inputs,
}
use obsidion.Tests.Spending

abbrev row : Bytes → Bytes → ℕ → IndexEntry
row hash prev_hash height = record {
  hash = hash;
  prev_hash = prev_hash;
  height = height;
  cumwork = 10 + height;
  timestamp = 900 + height;
  bits = 0x207FFFFF;
  active = true;
  status = valid;
}

abbrev pub parent_hash : Bytes
parent_hash = replicate 32 0

abbrev pub tip : IndexEntry
tip = row parent_hash (replicate 32 13) 4

abbrev pub start : ChainDb
start = record {
  blocks = [];
  block_index =
      (replicate 32 10, row (replicate 32 10) (replicate 32 0) 0)
      ∷ (replicate 32 11, row (replicate 32 11) (replicate 32 10) 1)
      ∷ (replicate 32 12, row (replicate 32 12) (replicate 32 11) 2)
      ∷ (replicate 32 13, row (replicate 32 13) (replicate 32 12) 3)
      ∷ (parent_hash, tip)
      ∷ [];
  utxos = one_row;
  undo = [];
  meta = (tip_key, parent_hash) ∷ [];
}

abbrev plain_coinbase : Transaction
plain_coinbase = record coinbase_tx {
  outputs = record { amount = pos 5000000000; pubkey_hash = replicate 20 2 } ∷ [];
}

abbrev pub block : Block
block = record {
  header = record {
    version = pos 1;
    prev_hash = parent_hash;
    merkle_root = (1 ∷ 0 ∷ 0 ∷ 0 ∷ 1 ∷ []) ++ replicate 27 0;
    timestamp = 1000;
    bits = 0x207FFFFF;
    nonce = 6;
  };
  transactions = plain_coinbase ∷ [];
}

abbrev outcome : Outcome
outcome = accept_block platform regtest block 2000 (idle start)

abbrev result_of : Outcome → ConnectResult
result_of (returned result s) = result
result_of other = record { status = duplicate; disconnected = []; connected_hashes = [] }

accepts : outcome ≡ returned (result_of outcome) (left_by outcome)
unfolding check_block_structure check_coinbase_first is_coinbase block_size serialize_block
    serialize_header pack_signed pack_unsigned write_varint join_map serialize serialize_parts
    written_inputs serialize_input serialize_outpoint write_varbytes serialize_output
    check_transactions compact_to_target computed_merkle_root pow_digest satisfies_pow txids
    check_header_pow check_no_coinbase has_duplicates hash_to_int pow_hash scrypt_pow sha256d
    ends_in_pair even_row hash_pairs merkle_root pair_hash repeat_last root_loop blank
    check_structure is_coinbase_input sum_amounts total_output_value txid with_marker ◌+ℤ◌
    connect_utxos connect_transactions after_first connect_transaction connect_inputs connect_input
    get_utxo lookup coinbase add_outputs era_reward reward subsidy check_coinbase_reward delete_utxo
    delete insert put accept_block block_hash header_hash get_index accept_new find_parent
    accept_entry check_context make_entry store_block put_index put_block reorg_to branch_loop
    tip_hash tip_entry get_meta set_meta disconnect_loop connect_loop get_block_raw set_active
    update connect put_undo deserialize_block deserialize_header read_many deserialize_from
    read_varint expected_bits_for_next expected_bits ancestor_at_height ancestor_loop
    recent_timestamps recent_loop median_time_past check_coinbase_height check_expected_bits
    check_timestamp retarget_period_start_height work claimed_height encoded_height remember_invalid
    txids_of unpack_signed sorted unpack_header read_signed read_exactly read_unsigned
    deserialize_input deserialize_outpoint read_varbytes deserialize_output unpack_unsigned begin
    write commit settle
accepts = refl

pub at_tip : tip_entry start ≡ ok tip
unfolding tip_entry obsidion.ChainState.Reorg.tip_hash obsidion.Storage.get_meta get_index lookup
at_tip = refl

pub in_index : get_index parent_hash start ≡ some tip
unfolding get_index lookup
in_index = refl

accept_all-work_example :
    (tip' : IndexEntry) × (row' : IndexEntry) × (tip_entry
        ((accept_all platform regtest ((block, 2000) ∷ []) (idle start)).working)
      ≡ ok tip')
    × (14 ≤ tip'.cumwork)
    × (get_index parent_hash
          ((accept_all platform regtest ((block, 2000) ∷ []) (idle start)).working)
        ≡ some row')
    × SameBlock tip row'
accept_all-work_example =
    accept_all-work platform regtest ((block, 2000) ∷ []) start tip parent_hash tip at_tip in_index

accept_block-returned_example :
    HasReturned platform regtest block start tip (result_of outcome) (left_by outcome)
accept_block-returned_example =
    accept_block-returned platform regtest block 2000 start tip (result_of outcome)
      (left_by outcome) at_tip accepts

-- The same header over a coinbase that claims too much: the exception comes after the first writes.
abbrev greedy : Block
greedy = record block { transactions = coinbase_tx ∷ [] }

refused :
    accept_block platform regtest greedy 2000 (idle start)
    ≡ raised (consensus_error excess_reward) (idle start)
unfolding check_block_structure check_coinbase_first is_coinbase block_size serialize_block
    serialize_header pack_signed pack_unsigned write_varint join_map serialize serialize_parts
    written_inputs serialize_input serialize_outpoint write_varbytes serialize_output
    check_transactions compact_to_target computed_merkle_root pow_digest satisfies_pow txids
    check_header_pow check_no_coinbase has_duplicates hash_to_int pow_hash scrypt_pow sha256d
    ends_in_pair even_row hash_pairs merkle_root pair_hash repeat_last root_loop blank
    check_structure is_coinbase_input sum_amounts total_output_value txid with_marker ◌+ℤ◌
    connect_utxos connect_transactions after_first connect_transaction connect_inputs connect_input
    get_utxo lookup coinbase add_outputs era_reward reward subsidy check_coinbase_reward delete_utxo
    delete insert put accept_block block_hash header_hash get_index accept_new find_parent
    accept_entry check_context make_entry store_block put_index put_block reorg_to branch_loop
    tip_hash tip_entry get_meta set_meta disconnect_loop connect_loop get_block_raw set_active
    update connect put_undo deserialize_block deserialize_header read_many deserialize_from
    read_varint expected_bits_for_next expected_bits ancestor_at_height ancestor_loop
    recent_timestamps recent_loop median_time_past check_coinbase_height check_expected_bits
    check_timestamp retarget_period_start_height work claimed_height encoded_height remember_invalid
    txids_of unpack_signed sorted unpack_header read_signed read_exactly read_unsigned
    deserialize_input deserialize_outpoint read_varbytes deserialize_output unpack_unsigned begin
    write commit rollback settle after_verdict store_left reorg_left connect_loop_left connect_left
    connect_utxos_left connect_transactions_left disconnect_loop_left
refused = refl

accept_block-raised_example : HasRaised start (consensus_error excess_reward) (idle start)
accept_block-raised_example =
    accept_block-raised platform regtest greedy 2000 start (consensus_error excess_reward)
      (idle start) refused

-- Before the rollback the block was stored.
half_done :
    (raw : Bytes) × (get_block_raw []
        (store_left platform regtest greedy (make_entry greedy [] tip) tip start)
      ≡ some raw)
unfolding check_block_structure check_coinbase_first is_coinbase block_size serialize_block
    serialize_header pack_signed pack_unsigned write_varint join_map serialize serialize_parts
    written_inputs serialize_input serialize_outpoint write_varbytes serialize_output
    check_transactions compact_to_target computed_merkle_root pow_digest satisfies_pow txids
    check_header_pow check_no_coinbase has_duplicates hash_to_int pow_hash scrypt_pow sha256d
    ends_in_pair even_row hash_pairs merkle_root pair_hash repeat_last root_loop blank
    check_structure is_coinbase_input sum_amounts total_output_value txid with_marker ◌+ℤ◌
    connect_utxos connect_transactions after_first connect_transaction connect_inputs connect_input
    get_utxo lookup coinbase add_outputs era_reward reward subsidy check_coinbase_reward delete_utxo
    delete insert put accept_block block_hash header_hash get_index accept_new find_parent
    accept_entry check_context make_entry store_block put_index put_block reorg_to branch_loop
    tip_hash tip_entry get_meta set_meta disconnect_loop connect_loop get_block_raw set_active
    update connect put_undo deserialize_block deserialize_header read_many deserialize_from
    read_varint expected_bits_for_next expected_bits ancestor_at_height ancestor_loop
    recent_timestamps recent_loop median_time_past check_coinbase_height check_expected_bits
    check_timestamp retarget_period_start_height work claimed_height encoded_height remember_invalid
    txids_of unpack_signed sorted unpack_header read_signed read_exactly read_unsigned
    deserialize_input deserialize_outpoint read_varbytes deserialize_output unpack_unsigned begin
    write commit rollback settle after_verdict store_left reorg_left connect_loop_left connect_left
    connect_utxos_left connect_transactions_left disconnect_loop_left
half_done = (_, refl)

abbrev ids : List Bytes
ids =
    ((1 ∷ 0 ∷ 0 ∷ 0 ∷ 1 ∷ []) ++ replicate 27 0) ∷ ((1 ∷ 0 ∷ 0 ∷ 0 ∷ 1 ∷ []) ++ replicate 27 9) ∷ []

named : txids platform Spending.block ≡ ok ids
unfolding txids txids_of txid serialize serialize_parts written_inputs is_coinbase is_coinbase_input
    pack_signed pack_unsigned join_map write_varint write_varbytes serialize_input
    serialize_outpoint serialize_output with_marker blank sha256d signature_hash signature_preimage
    hash160 sign digest_at set_input sign_input signed_inputs signed_tx
named = refl

free : All (λ id. (index : ℕ) → lookup (record { txid = id; index = index }) one_row ≡ none) ids
unfolding lookup
free = (λ index. refl, (λ index. refl, tt))

distinct : AreDistinct ids
distinct = (((λ same. let clash = ap (λ l. get_elem? l 5) same in cc), tt), (tt, tt))

disconnect_utxos-connect_utxos_example :
    (utxos' : Utxos) × (disconnect_utxos platform Spending.block Spending.connected.undo_entries
        Spending.connected.utxos
      ≡ ok utxos')
    × ((o : OutPoint) → lookup o utxos' ≡ lookup o one_row)
disconnect_utxos-connect_utxos_example =
    disconnect_utxos-connect_utxos platform regtest 5 Spending.block one_row ids Spending.connected
      named distinct free connects

-- ===== src/Tests/Mining.antt =====
-- A template on a chain of five blocks, and a search.
use obsidion.Block.Compact.{compact_to_target}
use obsidion.Wire.{pack_signed, pack_unsigned, join_map}
use obsidion.Crypto.{pow_hash, sha256d, scrypt_pow, hash_to_int, hash160, sign}
use obsidion.Mempool.Select.{select, select_loop, select_round, consider, is_satisfiable, provide}
use obsidion.Transaction.Model.{contains, is_coinbase, is_coinbase_input}
use obsidion.Storage.{get_utxo, get_meta, get_index}
use obsidion.Table.{lookup}
use obsidion.ChainState.Reorg.{
  tip_entry, tip_hash, min_timestamp_for_next, expected_bits_for_next, recent_timestamps,
  recent_loop, ancestor_at_height, ancestor_loop,
}
use obsidion.Consensus.Emission.{subsidy, reward, era_reward}
use obsidion.Transaction.Signing.{
  coinbase, txid, signature_hash, signature_preimage, digest_at, set_input, sign_input,
  signed_inputs,
}
use obsidion.Merkle.{
  merkle_root, root_loop, even_row, ends_in_pair, repeat_last, hash_pairs, pair_hash,
}
use obsidion.Consensus.Difficulty.{
  median_time_past, sorted, expected_bits, retarget_period_start_height,
}
use obsidion.Transaction.Codec.{
  serialize, serialize_parts, written_inputs, blank, serialize_input, serialize_outpoint,
  write_varbytes, serialize_output,
}
use obsidion.Transaction.Varint.{write_varint, with_marker}
use obsidion.Tests.Spending.{signed_tx}
use obsidion.Prelude.Int.{◌+ℤ◌}
use obsidion.Prelude.{
  ℕ, zero, suc, ◌+◌, ◌≡◌, ◌≤◌, ◌<◌, refl, sym, ap, ◌∙◌, subst, Bool, true, false, List, [], ◌∷◌,
  Bytes, replicate, Option, some, none, inl, inr, arith, Bool-cases, ◌==◌, leb,
}
use obsidion.Prelude.Result.{ok}
use obsidion.Params.{regtest}
use obsidion.Block.Model.{
  BlockHeader, Block, satisfies_pow, computed_merkle_root, pow_digest, serialize_header, txids_of,
}
use obsidion.Consensus.Rules.{check_coinbase_reward, has_id}
use obsidion.ChainState.Accept.{check_context}
use obsidion.Mempool.{MempoolEntry, sort_by, insert_by, values}
use obsidion.Miner.{build_template, entries_for, sum_fees, grind}
use obsidion.Miner.Search.{Ends, with_nonce, grind_lem}
use obsidion.Miner.Template.{build_template_lem}
use obsidion.Tests.Fixtures.{platform, value}
use obsidion.Tests.Pool.{pool}
use obsidion.Tests.Chain.{start, tip, at_tip, in_index, block}

abbrev template : Block
template =
    value block (build_template platform regtest start (some pool) (replicate 20 3) 0 [] 1000)

built : build_template platform regtest start (some pool) (replicate 20 3) 0 [] 1000 ≡ ok template
unfolding build_template entries_for obsidion.Mempool.Select.select obsidion.Mempool.sort_by
    obsidion.Mempool.insert_by obsidion.Mempool.values obsidion.Mempool.Select.select_loop
    obsidion.Mempool.Select.select_round obsidion.Mempool.Select.consider
    obsidion.Mempool.Select.is_satisfiable obsidion.Mempool.Select.provide
    obsidion.Consensus.Rules.has_id obsidion.Transaction.Model.contains obsidion.Storage.get_utxo
    obsidion.Table.lookup obsidion.ChainState.Reorg.tip_entry obsidion.ChainState.Reorg.tip_hash
    obsidion.Storage.get_meta obsidion.Storage.get_index obsidion.Consensus.Emission.subsidy
    obsidion.Consensus.Emission.reward obsidion.Consensus.Emission.era_reward
    obsidion.Transaction.Signing.coinbase obsidion.Block.Model.txids_of obsidion.Merkle.merkle_root
    obsidion.Merkle.root_loop obsidion.Merkle.even_row obsidion.Merkle.ends_in_pair
    obsidion.Merkle.repeat_last obsidion.Merkle.hash_pairs obsidion.Merkle.pair_hash
    obsidion.ChainState.Reorg.min_timestamp_for_next
    obsidion.ChainState.Reorg.expected_bits_for_next obsidion.ChainState.Reorg.recent_timestamps
    obsidion.ChainState.Reorg.recent_loop obsidion.ChainState.Reorg.ancestor_at_height
    obsidion.ChainState.Reorg.ancestor_loop obsidion.Consensus.Difficulty.median_time_past
    obsidion.Consensus.Difficulty.sorted obsidion.Consensus.Difficulty.expected_bits
    obsidion.Consensus.Difficulty.retarget_period_start_height obsidion.Prelude.Int.◌+ℤ◌
    obsidion.Transaction.Signing.txid obsidion.Transaction.Model.is_coinbase
    obsidion.Transaction.Model.is_coinbase_input obsidion.Transaction.Codec.serialize
    obsidion.Transaction.Codec.serialize_parts obsidion.Wire.pack_signed obsidion.Wire.pack_unsigned
    obsidion.Transaction.Varint.write_varint obsidion.Transaction.Varint.with_marker
    obsidion.Transaction.Codec.written_inputs obsidion.Transaction.Codec.blank
    obsidion.Wire.join_map obsidion.Transaction.Codec.serialize_input
    obsidion.Transaction.Codec.serialize_outpoint obsidion.Transaction.Codec.write_varbytes
    obsidion.Transaction.Codec.serialize_output obsidion.Tests.Spending.signed_tx
    obsidion.Transaction.Signing.signature_hash obsidion.Transaction.Signing.signature_preimage
    obsidion.Transaction.Signing.digest_at obsidion.Transaction.Signing.set_input
    obsidion.Transaction.Signing.sign_input obsidion.Transaction.Signing.signed_inputs
    obsidion.Crypto.hash160 obsidion.Crypto.sha256d obsidion.Crypto.sign
built = refl

in_time : template.header.timestamp ≤ 1600
unfolding build_template entries_for obsidion.Mempool.Select.select obsidion.Mempool.sort_by
    obsidion.Mempool.insert_by obsidion.Mempool.values obsidion.Mempool.Select.select_loop
    obsidion.Mempool.Select.select_round obsidion.Mempool.Select.consider
    obsidion.Mempool.Select.is_satisfiable obsidion.Mempool.Select.provide
    obsidion.Consensus.Rules.has_id obsidion.Transaction.Model.contains obsidion.Storage.get_utxo
    obsidion.Table.lookup obsidion.ChainState.Reorg.tip_entry obsidion.ChainState.Reorg.tip_hash
    obsidion.Storage.get_meta obsidion.Storage.get_index obsidion.Consensus.Emission.subsidy
    obsidion.Consensus.Emission.reward obsidion.Consensus.Emission.era_reward
    obsidion.Transaction.Signing.coinbase obsidion.Block.Model.txids_of obsidion.Merkle.merkle_root
    obsidion.Merkle.root_loop obsidion.Merkle.even_row obsidion.Merkle.ends_in_pair
    obsidion.Merkle.repeat_last obsidion.Merkle.hash_pairs obsidion.Merkle.pair_hash
    obsidion.ChainState.Reorg.min_timestamp_for_next
    obsidion.ChainState.Reorg.expected_bits_for_next obsidion.ChainState.Reorg.recent_timestamps
    obsidion.ChainState.Reorg.recent_loop obsidion.ChainState.Reorg.ancestor_at_height
    obsidion.ChainState.Reorg.ancestor_loop obsidion.Consensus.Difficulty.median_time_past
    obsidion.Consensus.Difficulty.sorted obsidion.Consensus.Difficulty.expected_bits
    obsidion.Consensus.Difficulty.retarget_period_start_height obsidion.Prelude.Int.◌+ℤ◌
    obsidion.Transaction.Signing.txid obsidion.Transaction.Model.is_coinbase
    obsidion.Transaction.Model.is_coinbase_input obsidion.Transaction.Codec.serialize
    obsidion.Transaction.Codec.serialize_parts obsidion.Wire.pack_signed obsidion.Wire.pack_unsigned
    obsidion.Transaction.Varint.write_varint obsidion.Transaction.Varint.with_marker
    obsidion.Transaction.Codec.written_inputs obsidion.Transaction.Codec.blank
    obsidion.Wire.join_map obsidion.Transaction.Codec.serialize_input
    obsidion.Transaction.Codec.serialize_outpoint obsidion.Transaction.Codec.write_varbytes
    obsidion.Transaction.Codec.serialize_output obsidion.Tests.Spending.signed_tx
    obsidion.Transaction.Signing.signature_hash obsidion.Transaction.Signing.signature_preimage
    obsidion.Transaction.Signing.digest_at obsidion.Transaction.Signing.set_input
    obsidion.Transaction.Signing.sign_input obsidion.Transaction.Signing.signed_inputs
    obsidion.Crypto.hash160 obsidion.Crypto.sha256d obsidion.Crypto.sign
in_time = omega arith

build_template_lem_example :
    (check_context platform regtest template tip 1000 start ≡ ok tt)
    × (computed_merkle_root platform template ≡ ok template.header.merkle_root)
    × ((entries : List MempoolEntry) × (entries_for platform regtest start (some pool) ≡ ok entries)
        × (check_coinbase_reward template 5 (sum_fees entries) regtest ≡ ok tt))
build_template_lem_example =
    build_template_lem platform regtest start (some pool) (replicate 20 3) 0 [] 1000 tip template
      at_tip in_index built in_time

abbrev fresh_header : BlockHeader
fresh_header = record (block.header) { nonce = 0 }

solved_first : satisfies_pow platform (with_nonce fresh_header 0) "sha256d" ≡ ok true
unfolding satisfies_pow obsidion.Block.Compact.compact_to_target obsidion.Block.Model.pow_digest
    obsidion.Block.Model.serialize_header obsidion.Wire.pack_signed obsidion.Wire.pack_unsigned
    obsidion.Crypto.pow_hash obsidion.Crypto.sha256d obsidion.Crypto.scrypt_pow
    obsidion.Crypto.hash_to_int
solved_first = refl

solved_next : satisfies_pow platform (with_nonce fresh_header 1) "sha256d" ≡ ok true
unfolding satisfies_pow obsidion.Block.Compact.compact_to_target obsidion.Block.Model.pow_digest
    obsidion.Block.Model.serialize_header obsidion.Wire.pack_signed obsidion.Wire.pack_unsigned
    obsidion.Crypto.pow_hash obsidion.Crypto.sha256d obsidion.Crypto.scrypt_pow
    obsidion.Crypto.hash_to_int
solved_next = refl

decided :
    (nonce : ℕ)
    → nonce ≤ 1
    → (b : Bool) × (satisfies_pow platform (with_nonce fresh_header nonce) "sha256d" ≡ ok b)
decided nonce low = elim (Bool-cases (nonce == 0)) [
  | inl first ↦
      (let same : 0 ≡ nonce = ground arith in
        subst
          (λ n. (b : Bool) × (satisfies_pow platform (with_nonce fresh_header n) "sha256d" ≡ ok b))
          same (true, solved_first))
  | inr second ↦
      (let same : 1 ≡ nonce = ground arith in
        subst
          (λ n. (b : Bool) × (satisfies_pow platform (with_nonce fresh_header n) "sha256d" ≡ ok b))
          same (true, solved_next))
]

grind_lem_example :
    (found : Bool) × (header : BlockHeader) × (grind platform "sha256d" 1 fresh_header
      ≡ ok (found, header))
    × Ends platform "sha256d" 1 fresh_header 0 found header
grind_lem_example = grind_lem platform "sha256d" 1 fresh_header decided (omega arith)

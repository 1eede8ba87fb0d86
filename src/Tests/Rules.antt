-- ===== src/Tests/Rules.antt =====
-- A block that the checks accept.
use obsidion.Prelude.{ℕ, ◌≡◌, ◌≤◌, refl, true, List, [], ◌∷◌, ◌++◌, Bytes, replicate, All}
use obsidion.Prelude.Int.{pos, ◌+ℤ◌}
use obsidion.Prelude.Result.{ok}
use obsidion.Params.{regtest}
use obsidion.Transaction.Model.{
  check_structure, is_coinbase, is_coinbase_input, sum_amounts, total_output_value,
}
use obsidion.Block.Model.{
  Block, block_size, txids, computed_merkle_root, satisfies_pow, serialize_block, serialize_header,
  pow_digest,
}
use obsidion.Consensus.Rules.{
  check_block_structure, check_coinbase_first, check_transactions, check_header_pow,
  check_no_coinbase, has_duplicates,
}
use obsidion.Consensus.Rules.Accepted.{StartsWithCoinbase, AreDistinct, check_block_structure_lem}
use obsidion.Tests.Fixtures.{platform, unsigned_tx, coinbase_tx}
use obsidion.Wire.{pack_signed, pack_unsigned, join_map}
use obsidion.Transaction.Varint.{write_varint, with_marker}
use obsidion.Transaction.Codec.{
  serialize, serialize_parts, written_inputs, serialize_input, serialize_outpoint, write_varbytes,
  serialize_output, blank,
}
use obsidion.Block.Compact.{compact_to_target}
use obsidion.Crypto.{hash_to_int, pow_hash, scrypt_pow, sha256d}
use obsidion.Merkle.{
  ends_in_pair, even_row, hash_pairs, merkle_root, pair_hash, repeat_last, root_loop,
}
use obsidion.Transaction.Signing.{txid}

abbrev block : Block
block = record {
  header = record {
    version = pos 1;
    prev_hash = replicate 32 0;
    merkle_root = (1 ∷ 0 ∷ 0 ∷ 0 ∷ 1 ∷ []) ++ replicate 27 0;
    timestamp = 1000;
    bits = 0x207FFFFF;
    nonce = 6;
  };
  transactions = coinbase_tx ∷ unsigned_tx ∷ [];
}

passes : check_block_structure platform block regtest ≡ ok tt
unfolding check_block_structure check_coinbase_first is_coinbase block_size serialize_block
    serialize_header pack_signed pack_unsigned write_varint join_map serialize serialize_parts
    written_inputs serialize_input serialize_outpoint write_varbytes serialize_output
    check_transactions compact_to_target computed_merkle_root pow_digest satisfies_pow txids
    check_header_pow check_no_coinbase has_duplicates hash_to_int pow_hash scrypt_pow sha256d
    ends_in_pair even_row hash_pairs merkle_root pair_hash repeat_last root_loop blank
    check_structure is_coinbase_input sum_amounts total_output_value txid with_marker ◌+ℤ◌
passes = refl

check_block_structure_lem_example :
    StartsWithCoinbase block.transactions
    × All (λ t. check_structure t ≡ ok tt) block.transactions
    × ((size : ℕ) × (block_size block ≡ ok size) × (size ≤ regtest.max_block_weight))
    × ((ids : List Bytes) × (txids platform block ≡ ok ids) × AreDistinct ids)
    × (computed_merkle_root platform block ≡ ok block.header.merkle_root)
    × (satisfies_pow platform block.header regtest.pow_algorithm ≡ ok true)
check_block_structure_lem_example = check_block_structure_lem platform block regtest passes

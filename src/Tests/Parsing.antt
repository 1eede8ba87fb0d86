-- ===== src/Tests/Parsing.antt =====
-- Runs of the parsers and serializers.
use obsidion.Prelude.{◌≡◌, false, true, refl, [], ◌∷◌, ◌++◌, length, Bytes, replicate, ◌+◌}
use obsidion.Prelude.Int.{pos}
use obsidion.Prelude.Result.{ok}
use obsidion.Transaction.Model.{Transaction, is_coinbase}
use obsidion.Transaction.Varint.{write_varint, read_varint}
use obsidion.Transaction.Codec.{
  serialize, deserialize_from, deserialize, serialize_input, serialize_outpoint, serialize_output,
  serialize_parts, write_varbytes, written_inputs,
}
use obsidion.Transaction.Parsing.{
  read_varint-write_varint, deserialize_from-serialize, deserialize-serialize,
}
use obsidion.Transaction.Signing.{coinbase, encoded_height}
use obsidion.Transaction.Signing.Coinbase.{encoded_height-coinbase}
use obsidion.Block.Model.{
  BlockHeader, Block, serialize_header, deserialize_header, serialize_block, deserialize_block,
}
use obsidion.Block.RoundTrip.{
  deserialize_header-serialize_header, deserialize_block-serialize_block,
}
use obsidion.Tests.Fixtures.{value, unsigned_tx, coinbase_tx}
use obsidion.Wire.{join_map, pack_signed, pack_unsigned}

abbrev header : BlockHeader
header = record {
  version = pos 1;
  prev_hash = replicate 32 3;
  merkle_root = replicate 32 4;
  timestamp = 1000;
  bits = 0x207FFFFF;
  nonce = 6;
}

abbrev block : Block
block = record { header = header; transactions = coinbase_tx ∷ unsigned_tx ∷ [] }

written_300 : write_varint 300 ≡ ok (0xFD ∷ 44 ∷ 1 ∷ [])
unfolding write_varint pack_unsigned
written_300 = refl

read_varint-write_varint_example : read_varint (1 ∷ 0xFD ∷ 44 ∷ 1 ∷ 2 ∷ []) 1 ≡ ok (300, 4)
read_varint-write_varint_example =
    read_varint-write_varint 300 (0xFD ∷ 44 ∷ 1 ∷ []) (1 ∷ []) (2 ∷ []) written_300

abbrev tx_bytes : Bytes
unfolding serialize
tx_bytes = value [] (serialize false unsigned_tx)

serialized_tx : serialize false unsigned_tx ≡ ok tx_bytes
unfolding serialize tx_bytes serialize_parts pack_signed write_varint written_inputs join_map
    serialize_input serialize_outpoint pack_unsigned write_varbytes serialize_output
serialized_tx = refl

deserialize-serialize_example : deserialize tx_bytes ≡ ok unsigned_tx
deserialize-serialize_example = deserialize-serialize unsigned_tx tx_bytes (refl, tt) serialized_tx

deserialize_from-serialize_example :
    deserialize_from ((8 ∷ []) ++ (tx_bytes ++ 9 ∷ [])) 1 ≡ ok (unsigned_tx, 1 + length tx_bytes)
deserialize_from-serialize_example =
    deserialize_from-serialize unsigned_tx tx_bytes (8 ∷ []) (9 ∷ []) (refl, tt) serialized_tx

abbrev header_bytes : Bytes
unfolding serialize_header
header_bytes = value [] (serialize_header header)

serialized_header : serialize_header header ≡ ok header_bytes
unfolding serialize_header header_bytes pack_signed pack_unsigned
serialized_header = refl

deserialize_header-serialize_header_example :
    (length header_bytes ≡ 80) × (deserialize_header header_bytes ≡ ok header)
deserialize_header-serialize_header_example =
    deserialize_header-serialize_header header header_bytes serialized_header

abbrev block_bytes : Bytes
unfolding serialize_block
block_bytes = value [] (serialize_block block)

serialized_block : serialize_block block ≡ ok block_bytes
unfolding serialize_block block_bytes serialize_header pack_signed pack_unsigned write_varint
    join_map serialize serialize_parts written_inputs serialize_input serialize_outpoint
    write_varbytes serialize_output
serialized_block = refl

deserialize_block-serialize_block_example : deserialize_block block_bytes ≡ ok block
deserialize_block-serialize_block_example =
    deserialize_block-serialize_block block block_bytes ((refl, tt), ((refl, tt), tt))
      serialized_block

abbrev mined : Transaction
unfolding coinbase
mined = value unsigned_tx (coinbase (pos 77) (pos 50) (replicate 20 2) 3 (1 ∷ 2 ∷ []))

built : coinbase (pos 77) (pos 50) (replicate 20 2) 3 (1 ∷ 2 ∷ []) ≡ ok mined
unfolding coinbase mined pack_signed pack_unsigned
built = refl

encoded_height-coinbase_example : (is_coinbase mined ≡ true) × (encoded_height mined ≡ ok (pos 77))
encoded_height-coinbase_example =
    encoded_height-coinbase (pos 77) (pos 50) (replicate 20 2) 3 (1 ∷ 2 ∷ []) mined built

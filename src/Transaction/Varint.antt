-- ===== src/Transaction/Varint.antt =====
-- Variable-length integers of obsidion/transaction.py. What is encoded is a length or a count, so it
-- is not negative.
use obsidion.Prelude.{
  ℕ, ◌+◌, [], ◌∷◌, Bytes, length, take, drop, get_elem?, Option, none, some, ltb, leb, ◌==◌,
  if◌then◌else◌,
}
use obsidion.Prelude.Result.{ok, err, ◌>>=◌}
use obsidion.Errors.{Try, value_error, varint_too_large, truncated_varint, truncated_payload}
use obsidion.Wire.{Reader, pack_unsigned, unpack_unsigned}

-- A marker byte before a packed payload.
unfoldable pub with_marker : ℕ → Try Bytes → Try Bytes
with_marker marker payload = do raw ← payload; ok (marker ∷ raw)

unfoldable pub write_varint : ℕ → Try Bytes
unfolding with_marker
write_varint value =
    if ltb value 0xFD
    then ok (value ∷ [])
    else if leb value 0xFFFF
    then with_marker 0xFD (pack_unsigned 2 value)
    else if leb value 0xFFFF_FFFF
    then with_marker 0xFE (pack_unsigned 4 value)
    else if leb value 0xFFFF_FFFF_FFFF_FFFF
    then with_marker 0xFF (pack_unsigned 8 value)
    else err (value_error varint_too_large)

-- The table `widths`, at a prefix that is not below 0xFD.
unfoldable pub width_of : ℕ → ℕ
width_of prefix = if prefix == 0xFD then 2 else if prefix == 0xFE then 4 else 8

unfoldable pub read_payload : ℕ → Reader ℕ
read_payload width buffer offset =
    if ltb (length buffer) (offset + width)
    then err (value_error truncated_payload)
    else ok (unpack_unsigned (take width (drop offset buffer)), offset + width)

-- What is done with `data[offset]`, if the buffer has it.
unfoldable pub read_prefix : Option ℕ → Reader ℕ
unfolding width_of read_payload
read_prefix none buffer offset = err (value_error truncated_varint)
read_prefix (some prefix) buffer offset =
    if ltb prefix 0xFD
    then ok (prefix, offset + 1)
    else read_payload (width_of prefix) buffer (offset + 1)

unfoldable pub read_varint : Reader ℕ
unfolding read_prefix
read_varint buffer offset = read_prefix (get_elem? buffer offset) buffer offset

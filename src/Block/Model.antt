-- ===== src/Block/Model.antt =====
-- Headers and blocks of obsidion/block.py.
use Prim.Native.String.{String}
use obsidion.Prelude.{
  ℕ, ◌≡◌, ap, ◌+◌, ◌/◌, ◌^◌, Bool, false, not, List, [], ◌∷◌, ◌++◌, Bytes, length, take, ltb, leb,
  ◌==◌, if◌then◌else◌,
}
use obsidion.Prelude.Int.{ℤ}
use obsidion.Prelude.Result.{ok, err, ◌>>=◌, ◌>>◌, ok-injective, raise_if}
use obsidion.Errors.{
  Try, value_error, bad_hash_length, bad_header_length, truncated, trailing_bytes, no_transactions,
}
use obsidion.Crypto.{Platform, sha256d, pow_hash, hash_to_int}
use obsidion.Wire.{Reader, pack_unsigned, pack_signed, read_exactly, read_many, join_map}
use obsidion.Merkle
use obsidion.Transaction.Model.{Transaction}
use obsidion.Transaction.Varint.{write_varint, read_varint}
use obsidion.Transaction.Codec.{read_unsigned, read_signed}
use obsidion.Transaction.Codec
use obsidion.Transaction.Signing.{txid, encoded_height}
use obsidion.Block.Compact.{compact_to_target}

abbrev pub header_size : ℕ
header_size = 80

pub record BlockHeader : Type 0 where
  pub prev_hash : Bytes
  pub merkle_root : Bytes
  pub timestamp : ℕ
  pub bits : ℕ
  pub nonce : ℕ
  pub version : ℤ

pub record Block : Type 0 where
  pub header : BlockHeader
  pub transactions : List Transaction

-- `struct.pack("<i32s32sIII", ...)`, after the two tests of length.
unfoldable pub serialize_header : BlockHeader → Try Bytes
serialize_header h = do
  raise_if (not (length h.prev_hash == 32)) (value_error bad_hash_length)
  raise_if (not (length h.merkle_root == 32)) (value_error bad_hash_length)
  version ← pack_signed 4 h.version
  timestamp ← pack_unsigned 4 h.timestamp
  bits ← pack_unsigned 4 h.bits
  nonce ← pack_unsigned 4 h.nonce
  ok (version ++ (h.prev_hash ++ (h.merkle_root ++ (timestamp ++ (bits ++ nonce)))))

-- `struct.unpack` takes the fields of the format from the start of the buffer, one by one.
unfoldable pub unpack_header : Reader BlockHeader
unpack_header buffer offset = do
  (version, o1) ← read_signed 4 buffer offset
  (prev_hash, o2) ← read_exactly 32 buffer o1
  (merkle_root, o3) ← read_exactly 32 buffer o2
  (timestamp, o4) ← read_unsigned 4 buffer o3
  (bits, o5) ← read_unsigned 4 buffer o4
  (nonce, o6) ← read_unsigned 4 buffer o5
  ok (
    record {
      prev_hash = prev_hash;
      merkle_root = merkle_root;
      timestamp = timestamp;
      bits = bits;
      nonce = nonce;
      version = version;
    },
    o6,
  )

-- `BlockHeader.deserialize`
unfoldable pub deserialize_header : Bytes → Try BlockHeader
deserialize_header raw = do
  raise_if (not (length raw == header_size)) (value_error bad_header_length)
  (header, _) ← unpack_header raw 0
  ok header

-- `target() > 0`, and nothing where the bits are malformed.
target_or_zero : Try ℕ → ℕ
target_or_zero (ok target) = target
target_or_zero (err e) = 0

-- `work()`: malformed bits and a target of zero count for nothing.
unfoldable pub work : BlockHeader → ℕ
unfolding target_or_zero
work h =
    let target = target_or_zero (compact_to_target h.bits) in
    if target == 0 then 0 else 2 ^ 256 / (target + 1)

module _ (c : Platform) where
  unfoldable pub header_hash : BlockHeader → Try Bytes
  header_hash h = do raw ← serialize_header h; ok (sha256d c raw)

  unfoldable pub pow_digest : BlockHeader → String → Try Bytes
  pow_digest h algorithm = do raw ← serialize_header h; pow_hash c raw algorithm

  unfoldable pub satisfies_pow : BlockHeader → String → Try Bool
  unfolding target_or_zero
  satisfies_pow h algorithm =
      let target = target_or_zero (compact_to_target h.bits) in
      if target == 0
      then ok false
      else (do digest ← pow_digest h algorithm; ok (leb (hash_to_int digest) target))

  -- `hash()`
  unfoldable pub block_hash : Block → Try Bytes
  block_hash b = header_hash b.header

  unfoldable pub txids_of : List Transaction → Try (List Bytes)
  txids_of [] = ok []
  txids_of (tx ∷ transactions) = do id ← txid c tx; ids ← txids_of transactions; ok (id ∷ ids)

  unfoldable pub txids : Block → Try (List Bytes)
  unfolding txids_of
  txids b = txids_of b.transactions

  unfoldable pub computed_merkle_root : Block → Try Bytes
  computed_merkle_root b = do ids ← txids b; Merkle.merkle_root c ids

unfoldable pub first : List Transaction → Try Transaction
first [] = err (value_error no_transactions)
first (tx ∷ transactions) = ok tx

-- `coinbase()`
unfoldable pub coinbase : Block → Try Transaction
unfolding first
coinbase b = first b.transactions

first_lem :
    (transactions : List Transaction) {tx : Transaction}
    → first transactions ≡ ok tx
    → (rest : List Transaction) × (transactions ≡ tx ∷ rest)
unfolding first
first_lem [] h = cc
first_lem (t ∷ rest) h = (rest, ap (λ z. z ∷ rest) (ok-injective h))

-- A block with a coinbase starts with it.
pub coinbase_lem :
    (b : Block) {tx : Transaction}
    → coinbase b ≡ ok tx
    → (rest : List Transaction) × (b.transactions ≡ tx ∷ rest)
unfolding coinbase
coinbase_lem b h = first_lem b.transactions h

-- `height()`
unfoldable pub claimed_height : Block → Try ℤ
claimed_height b = do tx ← coinbase b; encoded_height tx

unfoldable pub serialize_block : Block → Try Bytes
serialize_block b = do
  header ← serialize_header b.header
  count ← write_varint (length b.transactions)
  transactions ← join_map (Codec.serialize false) b.transactions
  ok (header ++ (count ++ transactions))

-- `Block.deserialize`
unfoldable pub deserialize_block : Bytes → Try Block
deserialize_block raw = do
  raise_if (ltb (length raw) header_size) (value_error truncated)
  header ← deserialize_header (take header_size raw)
  (count, o1) ← read_varint raw header_size
  (transactions, o2) ← read_many Codec.deserialize_from count raw o1
  raise_if (not (o2 == length raw)) (value_error trailing_bytes)
  ok (record { header = header; transactions = transactions })

-- `size()`
unfoldable pub block_size : Block → Try ℕ
block_size b = do raw ← serialize_block b; ok (length raw)

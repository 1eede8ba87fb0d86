-- ===== src/Transaction/Parsing.antt =====
-- Parsing what the serializers of obsidion/transaction.py have written.
use obsidion.Prelude.{
  ℕ, false, ◌+◌, ◌≡◌, sym, [], ◌++◌, append-nil, Bytes, length, length-append, drop-append, arith,
}
use obsidion.Prelude.Result.{ok}
use obsidion.Wire.Reading.{At}
use obsidion.Transaction.Model.{Transaction}
use obsidion.Transaction.Varint.{write_varint, read_varint}
use obsidion.Transaction.Codec.{serialize, deserialize_from, deserialize}
use obsidion.Transaction.RoundTrip.{SpendsIds, Decodes-varint, Decodes-transaction}

At-behind : (before rest : Bytes) → At (before ++ rest) (length before) rest
At-behind before rest = (omega (arith, length-append before rest), drop-append before rest)

-- Wherever the bytes that `write_varint` gives for a number stand in a buffer, `read_varint` gives
-- the number, and the offset behind those bytes.
pub read_varint-write_varint :
    (n : ℕ) (raw before rest : Bytes)
    → write_varint n ≡ ok raw
    → read_varint (before ++ (raw ++ rest)) (length before) ≡ ok (n, length before + length raw)
read_varint-write_varint n raw before rest h =
    Decodes-varint n raw h (before ++ (raw ++ rest)) (length before) rest
      (At-behind before (raw ++ rest))

-- If a transaction whose inputs name 32-byte ids serializes, `deserialize_from` reads the same
-- transaction back from any buffer that holds those bytes, and stops behind them.
pub deserialize_from-serialize :
    (tx : Transaction) (raw before rest : Bytes)
    → SpendsIds tx
    → serialize false tx ≡ ok raw
    → deserialize_from (before ++ (raw ++ rest)) (length before)
      ≡ ok (tx, length before + length raw)
deserialize_from-serialize tx raw before rest ids h =
    Decodes-transaction tx raw ids h (before ++ (raw ++ rest)) (length before) rest
      (At-behind before (raw ++ rest))

-- If a transaction whose inputs name 32-byte ids serializes, `deserialize` gives it back.
pub deserialize-serialize :
    (tx : Transaction) (raw : Bytes)
    → SpendsIds tx
    → serialize false tx ≡ ok raw
    → deserialize raw ≡ ok tx
unfolding deserialize
deserialize-serialize tx raw ids h =
    let at : At raw 0 (raw ++ []) = (omega arith, sym (append-nil raw)) in
    rw (Decodes-transaction tx raw ids h raw 0 [] at) (ground arith)

-- ===== src/Transaction/Codec.antt =====
-- Serialization of obsidion/transaction.py. `serialize` fails where `struct.pack` does, or where a
-- `pubkey_hash` has the wrong length.
use obsidion.Prelude.{
  ℕ, Bool, false, ◌&&◌, not, List, [], ◌++◌, map, Bytes, length, ◌==◌, if◌then◌else◌,
}
use obsidion.Prelude.Int.{ℤ}
use obsidion.Prelude.Result.{ok, ◌>>=◌, ◌>>◌, raise_if}
use obsidion.Errors.{Try, value_error, bad_hash_length, trailing_bytes}
use obsidion.Wire.{
  Reader, pack_unsigned, unpack_unsigned, pack_signed, unpack_signed, read_exactly, read_many,
  join_map,
}
use obsidion.Transaction.Model.{OutPoint, TxIn, TxOut, Transaction, is_coinbase}
use obsidion.Transaction.Varint.{write_varint, read_varint}

-- `_read_varbytes` and `_write_varbytes`
unfoldable pub read_varbytes : Reader Bytes
read_varbytes buffer offset = do
  (count, next) ← read_varint buffer offset
  read_exactly count buffer next

unfoldable pub write_varbytes : Bytes → Try Bytes
write_varbytes payload = do size ← write_varint (length payload); ok (size ++ payload)

-- `_read_exactly` of the format's size, then `struct.unpack`.
unfoldable pub read_unsigned : ℕ → Reader ℕ
read_unsigned width buffer offset = do
  (raw, next) ← read_exactly width buffer offset
  ok (unpack_unsigned raw, next)

unfoldable pub read_signed : ℕ → Reader ℤ
read_signed width buffer offset = do
  (raw, next) ← read_exactly width buffer offset
  ok (unpack_signed width raw, next)

unfoldable pub serialize_outpoint : OutPoint → Try Bytes
serialize_outpoint o = do index ← pack_unsigned 4 o.index; ok (o.txid ++ index)

unfoldable pub deserialize_outpoint : Reader OutPoint
deserialize_outpoint buffer offset = do
  (txid, o1) ← read_exactly 32 buffer offset
  (index, o2) ← read_unsigned 4 buffer o1
  ok (record { txid = txid; index = index }, o2)

unfoldable pub serialize_input : TxIn → Try Bytes
serialize_input i = do
  prevout ← serialize_outpoint i.prevout
  signature ← write_varbytes i.signature
  pubkey ← write_varbytes i.pubkey
  sequence ← pack_unsigned 4 i.sequence
  ok (prevout ++ (signature ++ (pubkey ++ sequence)))

unfoldable pub deserialize_input : Reader TxIn
deserialize_input buffer offset = do
  (prevout, o1) ← deserialize_outpoint buffer offset
  (signature, o2) ← read_varbytes buffer o1
  (pubkey, o3) ← read_varbytes buffer o2
  (sequence, o4) ← read_unsigned 4 buffer o3
  ok (record { prevout = prevout; signature = signature; pubkey = pubkey; sequence = sequence }, o4)

unfoldable pub serialize_output : TxOut → Try Bytes
serialize_output o = do
  raise_if (not (length o.pubkey_hash == 20)) (value_error bad_hash_length)
  amount ← pack_signed 8 o.amount
  ok (amount ++ o.pubkey_hash)

unfoldable pub deserialize_output : Reader TxOut
deserialize_output buffer offset = do
  (amount, o1) ← read_signed 8 buffer offset
  (pubkey_hash, o2) ← read_exactly 20 buffer o1
  ok (record { amount = amount; pubkey_hash = pubkey_hash }, o2)

-- `replace(i, signature=b"", pubkey=b"")`
unfoldable pub blank : TxIn → TxIn
blank i = record i { signature = []; pubkey = [] }

-- The inputs that are written: blanked for a transaction id, except in a coinbase.
unfoldable pub written_inputs : Bool → Transaction → List TxIn
unfolding blank
written_inputs strip tx = if strip && not (is_coinbase tx) then map blank tx.inputs else tx.inputs

-- The parts of the serialization after the choice of the inputs.
unfoldable pub serialize_parts : ℤ → List TxIn → List TxOut → ℕ → Try Bytes
serialize_parts version inputs outputs locktime = do
  head ← pack_signed 4 version
  input_count ← write_varint (length inputs)
  ins ← join_map serialize_input inputs
  output_count ← write_varint (length outputs)
  outs ← join_map serialize_output outputs
  tail ← pack_unsigned 4 locktime
  ok (head ++ (input_count ++ (ins ++ (output_count ++ (outs ++ tail)))))

-- `Transaction.serialize(strip_signatures=strip)`
unfoldable pub serialize : Bool → Transaction → Try Bytes
serialize strip tx = serialize_parts tx.version (written_inputs strip tx) tx.outputs tx.locktime

unfoldable pub deserialize_from : Reader Transaction
deserialize_from buffer offset = do
  (version, o1) ← read_signed 4 buffer offset
  (input_count, o2) ← read_varint buffer o1
  (inputs, o3) ← read_many deserialize_input input_count buffer o2
  (output_count, o4) ← read_varint buffer o3
  (outputs, o5) ← read_many deserialize_output output_count buffer o4
  (locktime, o6) ← read_unsigned 4 buffer o5
  ok (record { inputs = inputs; outputs = outputs; version = version; locktime = locktime }, o6)

-- `Transaction.deserialize`: nothing may follow the transaction.
unfoldable pub deserialize : Bytes → Try Transaction
deserialize raw = do
  (tx, offset) ← deserialize_from raw 0
  raise_if (not (offset == length raw)) (value_error trailing_bytes)
  ok tx

-- `size()`
unfoldable pub size : Transaction → Try ℕ
size tx = do raw ← serialize false tx; ok (length raw)

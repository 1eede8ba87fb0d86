-- ===== src/ChainState/Undo.antt =====
-- Undo entries of obsidion/chainstate.py, in the format "<32sIq20sIB".
use obsidion.Prelude.{ℕ, ◌-◌, Bool, true, false, not, ◌++◌, Bytes, length, take, replicate, ◌==◌}
use obsidion.Prelude.Result.{ok, ◌>>=◌}
use obsidion.Errors.{Try}
use obsidion.Wire.{Reader, pack_unsigned, pack_signed, read_exactly}
use obsidion.Transaction.Model.{OutPoint}
use obsidion.Transaction.Codec.{read_unsigned, read_signed}
use obsidion.Storage.{UtxoEntry}

-- An output that a block spent, as it stood in the table.
pub record UndoEntry : Type 0 where
  pub outpoint : OutPoint
  pub entry : UtxoEntry

-- The format "<n>s": cut, or filled with zero bytes.
unfoldable pub pack_string : ℕ → Bytes → Bytes
pack_string width s = take width s ++ replicate (width - length s) 0

abbrev flag : Bool → ℕ
flag true = 1
flag false = 0

unfoldable pub pack_undo : UndoEntry → Try Bytes
pack_undo u = do
  index ← pack_unsigned 4 u.outpoint.index
  amount ← pack_signed 8 u.entry.amount
  height ← pack_unsigned 4 u.entry.height
  coinbase ← pack_unsigned 1 (flag u.entry.is_coinbase)
  ok (
      pack_string 32 u.outpoint.txid
      ++ (index ++ (amount ++ (pack_string 20 u.entry.pubkey_hash ++ (height ++ coinbase)))))

-- `struct.unpack_from`, with the offset moved on by the format's size.
unfoldable pub unpack_undo : Reader UndoEntry
unpack_undo buffer offset = do
  (txid, o1) ← read_exactly 32 buffer offset
  (index, o2) ← read_unsigned 4 buffer o1
  (amount, o3) ← read_signed 8 buffer o2
  (pubkey_hash, o4) ← read_exactly 20 buffer o3
  (height, o5) ← read_unsigned 4 buffer o4
  (coinbase, o6) ← read_unsigned 1 buffer o5
  ok (
    record {
      outpoint = record { txid = txid; index = index };
      entry = record {
        amount = amount;
        pubkey_hash = pubkey_hash;
        height = height;
        is_coinbase = not (coinbase == 0);
      };
    },
    o6,
  )

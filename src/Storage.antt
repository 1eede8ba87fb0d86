-- ===== src/Storage.antt =====
-- obsidion/storage.py: the chain database, one field for each table of its schema.
use Prim.Native.String.{String}
use obsidion.Prelude.{ℕ, Bool, true, false, [], Bytes, Option, if◌then◌else◌}
use obsidion.Prelude.Int.{ℤ}
use obsidion.Prelude.Eq.{List_eq, ℕ_eq, String_eq}
use obsidion.Prelude.Result.{ok, err, or_raise}
use obsidion.Errors.{Try, integrity_error, operational_error}
use obsidion.Table.{Table, lookup, put, insert, delete, update}
use obsidion.Table.Sums.{total}
use obsidion.Transaction.Model.{OutPoint, OutPoint_eq}

-- The `status` of a block in the index.
pub data Status : Type 0 where
  valid invalid : Status

pub record IndexEntry : Type 0 where
  pub hash : Bytes
  pub prev_hash : Bytes
  pub height : ℕ
  pub cumwork : ℕ
  pub timestamp : ℕ
  pub bits : ℕ
  pub active : Bool
  pub status : Status

-- A row of `utxos`, which is `UTXOEntry` of obsidion/chainstate.py.
pub record UtxoEntry : Type 0 where
  pub amount : ℤ
  pub pubkey_hash : Bytes
  pub height : ℕ
  pub is_coinbase : Bool

abbrev pub Utxos : Type 0
Utxos = Table OutPoint UtxoEntry

pub record ChainDb : Type 0 where
  pub blocks : Table Bytes Bytes
  pub block_index : Table Bytes IndexEntry
  pub utxos : Utxos
  pub undo : Table Bytes Bytes
  pub meta : Table String Bytes

abbrev pub empty_db : ChainDb
empty_db = record { blocks = []; block_index = []; utxos = []; undo = []; meta = [] }

unfoldable pub put_block : Bytes → Bytes → ChainDb → ChainDb
put_block hash raw db = record db { blocks = put hash raw db.blocks }

unfoldable pub get_block_raw : Bytes → ChainDb → Option Bytes
get_block_raw hash db = lookup hash db.blocks

unfoldable pub put_index : IndexEntry → ChainDb → ChainDb
put_index entry db = record db { block_index = put entry.hash entry db.block_index }

unfoldable pub get_index : Bytes → ChainDb → Option IndexEntry
get_index hash db = lookup hash db.block_index

unfoldable pub set_active : Bytes → Bool → ChainDb → ChainDb
set_active hash active db = record db {
  block_index = update hash (λ entry. record entry { active = active }) db.block_index;
}

unfoldable pub set_status : Bytes → Status → ChainDb → ChainDb
set_status hash status db = record db {
  block_index = update hash (λ entry. record entry { status = status }) db.block_index;
}

-- A key that is taken is an `IntegrityError`.
unfoldable pub add_utxo : OutPoint → UtxoEntry → Utxos → Try Utxos
add_utxo outpoint entry utxos = or_raise (insert outpoint entry utxos) integrity_error

unfoldable pub get_utxo : OutPoint → Utxos → Option UtxoEntry
get_utxo outpoint utxos = lookup outpoint utxos

unfoldable pub delete_utxo : OutPoint → Utxos → Utxos
delete_utxo outpoint utxos = delete outpoint utxos

-- `SELECT COALESCE(SUM(amount), 0) FROM utxos`
unfoldable pub sum_utxos : Utxos → ℤ
sum_utxos utxos = total (λ outpoint entry. entry.amount) utxos

unfoldable pub put_undo : Bytes → Bytes → ChainDb → ChainDb
put_undo hash raw db = record db { undo = put hash raw db.undo }

unfoldable pub get_undo : Bytes → ChainDb → Option Bytes
get_undo hash db = lookup hash db.undo

unfoldable pub get_meta : String → ChainDb → Option Bytes
get_meta key db = lookup key db.meta

unfoldable pub set_meta : String → Bytes → ChainDb → ChainDb
set_meta key value db = record db { meta = put key value db.meta }

-- The connection: what is committed, what a reader of the same connection sees, and whether a
-- transaction is open. The node has one connection and no other writer.
pub record Connection : Type 0 where
  pub committed : ChainDb
  pub working : ChainDb
  pub in_transaction : Bool

-- A connection without a transaction, as after `sqlite3.connect`.
abbrev pub idle : ChainDb → Connection
idle db = record { committed = db; working = db; in_transaction = false }

-- SQLite refuses a transaction in a transaction.
unfoldable pub begin : Connection → Try Connection
begin s =
    if s.in_transaction then err operational_error else ok (record s { in_transaction = true })

-- What the statements of an open transaction make of the tables.
unfoldable pub write : ChainDb → Connection → Connection
write db s = record s { working = db }

-- `COMMIT` and `ROLLBACK`, in an open transaction.
unfoldable pub commit : Connection → Connection
commit s = record { committed = s.working; working = s.working; in_transaction = false }

unfoldable pub rollback : Connection → Connection
rollback s = record { committed = s.committed; working = s.committed; in_transaction = false }

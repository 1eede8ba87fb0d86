-- ===== src/ChainState/Reorg.antt =====
-- Following the parent links of the index, and switching branches: `_ancestor_at_height`,
-- `_recent_timestamps`, `expected_bits_for_next`, `min_timestamp_for_next` and `_reorg_to` of
-- obsidion/chainstate.py. A walk down the links has one round for each height at hand.
pub mod Walks
use Prim.Native.String.{String}
use obsidion.Prelude.{
  ℕ, zero, suc, ◌+◌, true, List, [], ◌∷◌, ◌++◌, map, Bytes, Option, none, some, ltb, ◌==◌,
  if◌then◌else◌,
}
use obsidion.Prelude.Eq.{◌=?◌, ℕ_eq, List_eq}
use obsidion.Prelude.Result.{ok, err, ◌>>=◌, or_raise}
use obsidion.Errors.{Try, orphan_error, assertion_error, out_of_fuel}
use obsidion.Params.{NetworkParams}
use obsidion.Crypto.{Platform}
use obsidion.Transaction.Model.{Transaction}
use obsidion.Block.Model.{deserialize_block}
use obsidion.Consensus.Difficulty.{expected_bits, retarget_period_start_height, median_time_past}
use obsidion.Storage.{IndexEntry, ChainDb, get_index, get_meta, get_block_raw, set_active}
use obsidion.ChainState.Connect.{connect, disconnect}

-- `_TIP_KEY`
abbrev pub tip_key : String
tip_key = "tip"

unfoldable pub tip_hash : ChainDb → Try Bytes
tip_hash db = or_raise (get_meta tip_key db) assertion_error

-- `tip`
unfoldable pub tip_entry : ChainDb → Try IndexEntry
tip_entry db = do hash ← tip_hash db; or_raise (get_index hash db) assertion_error

unfoldable pub ancestor_loop : ℕ → IndexEntry → ℕ → ChainDb → Try IndexEntry
ancestor_loop zero cursor height db = err out_of_fuel
ancestor_loop (suc fuel) cursor height db =
    let rest = (do
      parent ← or_raise (get_index cursor.prev_hash db) assertion_error
      ancestor_loop fuel parent height db) in
    if ltb height cursor.height then rest else ok cursor

unfoldable pub ancestor_at_height : IndexEntry → ℕ → ChainDb → Try IndexEntry
ancestor_at_height entry height db = ancestor_loop (suc entry.height) entry height db

-- The rounds are the places that are left in the list.
unfoldable pub recent_loop : ℕ → Option IndexEntry → ChainDb → List ℕ
recent_loop zero cursor db = []
recent_loop (suc rounds) none db = []
recent_loop (suc rounds) (some cursor) db =
    let rest = recent_loop rounds (get_index cursor.prev_hash db) db in
    cursor.timestamp ∷ (if cursor.height == 0 then [] else rest)

unfoldable pub recent_timestamps : NetworkParams → IndexEntry → ChainDb → List ℕ
recent_timestamps p parent db = recent_loop p.median_time_blocks (some parent) db

unfoldable pub expected_bits_for_next : NetworkParams → Bytes → ChainDb → Try ℕ
expected_bits_for_next p parent_hash db = do
  parent ← or_raise (get_index parent_hash db) orphan_error
  let height = suc parent.height
  period_start ← ancestor_at_height parent (retarget_period_start_height height p) db
  expected_bits height p parent.bits parent.timestamp period_start.timestamp

unfoldable pub min_timestamp_for_next : NetworkParams → Bytes → ChainDb → Try ℕ
min_timestamp_for_next p parent_hash db = do
  parent ← or_raise (get_index parent_hash db) orphan_error
  median ← median_time_past (recent_timestamps p parent db)
  ok (median + 1)

-- Down to the first active block: the branch above it, oldest first, and that block. The source
-- appends and reverses at the end.
unfoldable pub branch_loop :
    ℕ → IndexEntry → List IndexEntry → ChainDb → Try (List IndexEntry × IndexEntry)
branch_loop zero cursor branch db = err out_of_fuel
branch_loop (suc fuel) cursor branch db =
    let rest = (do
      parent ← or_raise (get_index cursor.prev_hash db) assertion_error
      branch_loop fuel parent (cursor ∷ branch) db) in
    if cursor.active then ok (branch, cursor) else rest

module _ (c : Platform) where
  -- `while tip_hash != fork.hash`: the index entry is read after the block is disconnected.
  unfoldable pub disconnect_loop :
      ℕ → Bytes → Bytes → List Transaction → ChainDb → Try (List Transaction × ChainDb)
  disconnect_loop zero hash fork_hash disconnected db = err out_of_fuel
  disconnect_loop (suc fuel) hash fork_hash disconnected db =
      let rest = (do
        (transactions, db') ← disconnect c hash db
        entry ← or_raise (get_index hash db') assertion_error
        disconnect_loop fuel entry.prev_hash fork_hash (disconnected ++ transactions) db') in
      if hash =? fork_hash then ok (disconnected, db) else rest

  module _ (p : NetworkParams) where
    unfoldable pub connect_loop : List IndexEntry → ChainDb → Try ChainDb
    connect_loop [] db = ok db
    connect_loop (entry ∷ branch) db = do
      raw ← or_raise (get_block_raw entry.hash db) assertion_error
      block ← deserialize_block raw
      db' ← connect c p entry.height block db
      connect_loop branch (set_active entry.hash true db')

    -- `_reorg_to`. The blocks to disconnect have the heights from the tip's down.
    unfoldable pub reorg_to :
        IndexEntry → ℕ → ChainDb → Try ((List Transaction × List Bytes) × ChainDb)
    reorg_to candidate tip_height db = do
      (branch, fork) ← branch_loop (suc candidate.height) candidate [] db
      hash ← tip_hash db
      (disconnected, db1) ← disconnect_loop (suc tip_height) hash fork.hash [] db
      db2 ← connect_loop branch db1
      ok ((disconnected, map (λ entry. entry.hash) branch), db2)

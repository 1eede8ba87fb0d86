-- ===== src/Miner.antt =====
-- obsidion/miner.py: `build_template`, and `grind` as its callers use it, without `should_stop`.
-- The time is in whole seconds.
pub mod Template
pub mod Search
use Prim.Native.String.{String}
use obsidion.Prelude.{
  ℕ, zero, suc, ◌+◌, ◌-◌, List, [], ◌∷◌, map, Bytes, Option, none, some, max, leb, true, false,
  Bool, if◌then◌else◌,
}
use obsidion.Prelude.Int.{ℤ, pos, ◌+ℤ◌}
use obsidion.Prelude.Result.{ok, err, ◌>>=◌}
use obsidion.Errors.{Try, out_of_fuel}
use obsidion.Params.{NetworkParams}
use obsidion.Crypto.{Platform}
use obsidion.Transaction.Model.{Transaction}
use obsidion.Transaction.Signing.{coinbase}
use obsidion.Merkle.{merkle_root}
use obsidion.Block.Model.{BlockHeader, Block, txids_of, satisfies_pow}
use obsidion.Consensus.Emission.{subsidy}
use obsidion.Storage.{ChainDb}
use obsidion.ChainState.Reorg.{tip_entry, min_timestamp_for_next, expected_bits_for_next}
use obsidion.Mempool.{MempoolEntry, Mempool}
use obsidion.Mempool.Select.{select}

-- `COINBASE_RESERVE`
abbrev pub coinbase_reserve : ℕ
coinbase_reserve = 250

-- `sum(entry.fee for entry in entries)`
abbrev pub sum_fees : List MempoolEntry → ℤ
sum_fees [] = pos 0
sum_fees (entry ∷ entries) = entry.fee +ℤ sum_fees entries

module _ (c : Platform) (p : NetworkParams) where
  -- Without a pool there is nothing to take. An entry has bytes, so a limit that would be below 0
  -- takes as much as the limit 0.
  unfoldable pub entries_for : ChainDb → Option Mempool → Try (List MempoolEntry)
  entries_for db none = ok []
  entries_for db (some pool) = select c (p.max_block_weight - coinbase_reserve) db.utxos pool

  unfoldable pub build_template : ChainDb → Option Mempool → Bytes → ℕ → Bytes → ℕ → Try Block
  build_template db pool miner_pubkey_hash extra_nonce message now = do
    parent ← tip_entry db
    entries ← entries_for db pool
    reward ← subsidy (pos (suc parent.height)) p
    tx ←
        coinbase (pos (suc parent.height)) (pos reward +ℤ sum_fees entries) miner_pubkey_hash
          extra_nonce message
    ids ← txids_of c (tx ∷ map (λ entry. entry.tx) entries)
    root ← merkle_root c ids
    floor ← min_timestamp_for_next p parent.hash db
    bits ← expected_bits_for_next p parent.hash db
    ok (record {
      header = record {
        prev_hash = parent.hash;
        merkle_root = root;
        timestamp = max now floor;
        bits = bits;
        nonce = 0;
        version = pos 1;
      };
      transactions = tx ∷ map (λ entry. entry.tx) entries;
    })

-- `grind`: whether a nonce was found, and the header as it is left. A nonce that is below the limit
-- has a round, and one more.
unfoldable pub grind_loop : Platform → String → ℕ → ℕ → BlockHeader → Try (Bool × BlockHeader)
grind_loop c algorithm max_nonce zero header = err out_of_fuel
grind_loop c algorithm max_nonce (suc rounds) header = do
  enough ← satisfies_pow c header algorithm
  let next : BlockHeader = record header { nonce = header.nonce + 1 }
  let rest = grind_loop c algorithm max_nonce rounds next
  if enough
      then ok (true, header)
      else (if leb max_nonce header.nonce then ok (false, header) else rest)

unfoldable pub grind : Platform → String → ℕ → BlockHeader → Try (Bool × BlockHeader)
grind c algorithm max_nonce header =
    grind_loop c algorithm max_nonce (suc (max_nonce - header.nonce)) header

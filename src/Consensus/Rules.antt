-- ===== src/Consensus/Rules.antt =====
-- The validation rules of obsidion/consensus.py.
pub mod Accepted
use obsidion.Prelude.{
  ℕ, ◌+◌, Bool, true, false, not, List, [], ◌∷◌, Bytes, ltb, leb, ◌==◌, if◌then◌else◌,
}
use obsidion.Prelude.Int.{ℤ, pos, ◌+ℤ◌, ltb_ℤ, eqb_ℤ}
use obsidion.Prelude.Eq.{◌=?◌, List_eq, ℕ_eq}
use obsidion.Prelude.Result.{ok, err, ◌>>=◌, ◌>>◌, raise_if}
use obsidion.Errors.{
  Try, consensus_error, except_value, empty_block, first_not_coinbase, extra_coinbase,
  block_too_large, repeated_txid, bad_transaction, bad_merkle, wrong_merkle, malformed_bits,
  zero_target, insufficient_work, excess_reward, no_encoded_height, wrong_height, early_timestamp,
  late_timestamp, wrong_bits,
}
use obsidion.Params.{NetworkParams}
use obsidion.Crypto.{Platform}
use obsidion.Transaction.Model.{Transaction, is_coinbase, total_output_value, check_structure}
use obsidion.Block.Compact.{compact_to_target}
use obsidion.Block.Model.{
  BlockHeader, Block, satisfies_pow, block_size, txids, computed_merkle_root, coinbase,
  claimed_height,
}
use obsidion.Consensus.Emission.{subsidy}
use obsidion.Consensus.Difficulty.{median_time_past}

unfoldable pub check_header_pow : Platform → BlockHeader → NetworkParams → Try Unit
check_header_pow c header p = do
  target ← except_value (compact_to_target header.bits) (consensus_error malformed_bits)
  raise_if (target == 0) (consensus_error zero_target)
  enough ← satisfies_pow c header p.pow_algorithm
  raise_if (not enough) (consensus_error insufficient_work)

-- The first transaction is a coinbase, and no other is.
unfoldable pub check_no_coinbase : List Transaction → Try Unit
check_no_coinbase [] = ok tt
check_no_coinbase (tx ∷ transactions) = do
  raise_if (is_coinbase tx) (consensus_error extra_coinbase)
  check_no_coinbase transactions

unfoldable pub check_coinbase_first : List Transaction → Try Unit
unfolding check_no_coinbase
check_coinbase_first [] = err (consensus_error empty_block)
check_coinbase_first (tx ∷ transactions) = do
  raise_if (not (is_coinbase tx)) (consensus_error first_not_coinbase)
  check_no_coinbase transactions

unfoldable pub check_transactions : List Transaction → Try Unit
check_transactions [] = ok tt
check_transactions (tx ∷ transactions) = do
  except_value (check_structure tx) (consensus_error bad_transaction)
  check_transactions transactions

unfoldable pub has_id : Bytes → List Bytes → Bool
has_id id [] = false
has_id id (other ∷ ids) = if id =? other then true else has_id id ids

-- `len(set(txids)) != len(txids)`
unfoldable pub has_duplicates : List Bytes → Bool
unfolding has_id
has_duplicates [] = false
has_duplicates (id ∷ ids) = if has_id id ids then true else has_duplicates ids

unfoldable pub check_block_structure : Platform → Block → NetworkParams → Try Unit
check_block_structure c block p = do
  check_coinbase_first block.transactions
  size ← block_size block
  raise_if (ltb p.max_block_weight size) (consensus_error block_too_large)
  check_transactions block.transactions
  ids ← txids c block
  raise_if (has_duplicates ids) (consensus_error repeated_txid)
  computed ← except_value (computed_merkle_root c block) (consensus_error bad_merkle)
  raise_if (not (computed =? block.header.merkle_root)) (consensus_error wrong_merkle)
  check_header_pow c block.header p

-- Heights are those of blocks in the index, which count up from 0.
unfoldable pub check_coinbase_reward : Block → ℕ → ℤ → NetworkParams → Try Unit
check_coinbase_reward block height fees p = do
  due ← subsidy (pos height) p
  let allowed = pos due +ℤ fees
  tx ← coinbase block
  raise_if (ltb_ℤ allowed (total_output_value tx)) (consensus_error excess_reward)

unfoldable pub check_coinbase_height : Block → ℕ → Try Unit
check_coinbase_height block height = do
  claimed ← except_value (claimed_height block) (consensus_error no_encoded_height)
  raise_if (not (eqb_ℤ claimed (pos height))) (consensus_error wrong_height)

-- Where there are recent blocks, their median is a floor.
unfoldable pub check_floor : BlockHeader → List ℕ → Try Unit
check_floor header [] = ok tt
check_floor header (t ∷ recent) = do
  floor ← median_time_past (t ∷ recent)
  raise_if (leb header.timestamp floor) (consensus_error early_timestamp)

unfoldable pub check_timestamp : BlockHeader → List ℕ → ℕ → NetworkParams → Try Unit
unfolding check_floor
check_timestamp header recent now p = do
  check_floor header recent
  raise_if (ltb (now + p.max_future_block_time) header.timestamp) (consensus_error late_timestamp)

unfoldable pub check_expected_bits : BlockHeader → ℕ → Try Unit
check_expected_bits header expected =
    raise_if (not (header.bits == expected)) (consensus_error wrong_bits)

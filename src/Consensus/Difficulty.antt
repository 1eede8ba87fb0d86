-- ===== src/Consensus/Difficulty.antt =====
-- The difficulty and the clock in obsidion/consensus.py.
pub mod Bounds
pub mod Median
use obsidion.Prelude.{
  ℕ, zero, suc, ◌+◌, ◌-◌, ◌*◌, ◌/◌, ◌%◌, min, List, [], ◌∷◌, length, get_elem?, Option, leb, ltb,
  ◌==◌, not, if◌then◌else◌,
}
use obsidion.Prelude.Int.{ℤ, sub_ℕ, clamp}
use obsidion.Prelude.Result.{ok, err, ◌>>=◌, or_raise}
use obsidion.Errors.{Try, value_error, no_timestamps}
use obsidion.Params.{NetworkParams}
use obsidion.Block.Compact.{compact_to_target, target_to_compact}

-- How long the period took, held within a factor of its intended length. Timestamps come from
-- 4-byte fields; their difference may be negative.
unfoldable pub clamped_span : NetworkParams → ℕ → ℕ → ℕ
clamped_span p previous_timestamp period_start_timestamp =
    let intended = p.retarget_interval * p.target_block_time in
    clamp (intended / p.max_retarget_factor) (intended * p.max_retarget_factor)
      (sub_ℕ previous_timestamp period_start_timestamp)

-- The target at a boundary: the parent's, scaled, and no easier than the network's floor.
unfoldable pub retarget : NetworkParams → ℕ → ℕ → Try ℕ
retarget p previous_bits actual = do
  old ← compact_to_target previous_bits
  limit ← compact_to_target p.pow_limit_bits
  ok (min (old * actual / (p.retarget_interval * p.target_block_time)) limit)

-- `expected_bits`, given the parent's bits and timestamp and the period start's timestamp.
unfoldable pub expected_bits : ℕ → NetworkParams → ℕ → ℕ → ℕ → Try ℕ
expected_bits height p previous_bits previous_timestamp period_start_timestamp =
    if height == 0
    then ok p.pow_limit_bits
    else if not (height % p.retarget_interval == 0)
    then ok previous_bits
    else (do
      new_target ←
          retarget p previous_bits (clamped_span p previous_timestamp period_start_timestamp)
      ok (target_to_compact new_target))

unfoldable pub retarget_period_start_height : ℕ → NetworkParams → ℕ
retarget_period_start_height height p =
    if ltb height p.retarget_interval then 0 else height - p.retarget_interval

-- Python's `sorted`, on integers.
pub insert_sorted : ℕ → List ℕ → List ℕ
insert_sorted x [] = x ∷ []
insert_sorted x (y ∷ ys) = if leb x y then x ∷ y ∷ ys else y ∷ insert_sorted x ys

unfoldable pub sorted : List ℕ → List ℕ
unfolding insert_sorted
sorted [] = []
sorted (x ∷ xs) = insert_sorted x (sorted xs)

-- The middle is there: the list has an entry.
unfoldable pub median_time_past : List ℕ → Try ℕ
median_time_past timestamps =
    let ordered = sorted timestamps in
    or_raise (get_elem? ordered (length ordered / 2)) (value_error no_timestamps)

-- ===== src/Consensus/Difficulty/Bounds.antt =====
-- How far the difficulty can move.
use native.Mathlib.Nat.{div-le_of_le-mul, mul_left_comm, mul-le-mul_left}
use native.Mathlib.Decide.{dec_lt}
use obsidion.Prelude.{ℕ, ◌*◌, ◌/◌, ◌%◌, ◌^◌, ◌≤◌, ◌<◌, ◌≡◌, ◌≢◌, refl, arith, min, ◌==◌, false}
use obsidion.Prelude.Int.{clamp, ℤ, pos, negsuc, sub_ℕ}
use obsidion.Prelude.Result.{ok}
use obsidion.Params.{NetworkParams}
use obsidion.Block.Compact.{compact_to_target, target_to_compact}
use obsidion.Block.Compact.Precision.{compact_to_target-target_to_compact}
use obsidion.Consensus.Difficulty.{clamped_span, retarget, expected_bits}

clamp_bounds :
    (lowest highest : ℕ) (value : ℤ)
    → lowest ≤ highest
    → (lowest ≤ clamp lowest highest value) × (clamp lowest highest value ≤ highest)
unfolding clamp
clamp_bounds lowest highest (pos n) h = (omega arith, omega arith)
clamp_bounds lowest highest (negsuc n) h = (omega arith, omega arith)

shrinks : (n k : ℕ) → 0 < k → n / k ≤ n * k
shrinks n k h = grind arith

-- Whatever the timestamps, the span that enters the new target lies within the network's factor of
-- the intended one, on both sides.
pub clamped_span_bounds :
    (p : NetworkParams) (previous start : ℕ)
    → 0 < p.max_retarget_factor
    → let intended = p.retarget_interval * p.target_block_time in
      (intended / p.max_retarget_factor ≤ clamped_span p previous start)
      × (clamped_span p previous start ≤ intended * p.max_retarget_factor)
unfolding clamped_span
clamped_span_bounds p previous start h =
    let intended = p.retarget_interval * p.target_block_time in
    clamp_bounds (intended / p.max_retarget_factor) (intended * p.max_retarget_factor)
      (sub_ℕ previous start) (shrinks intended p.max_retarget_factor h)

scaled_le :
    (old actual intended factor : ℕ)
    → 0 < intended
    → actual ≤ intended * factor
    → old * actual / intended ≤ old * factor
scaled_le old actual intended factor p h =
    div-le_of_le-mul intended (rw (mul_left_comm intended old factor) (mul-le-mul_left old h))

-- At a boundary the new target, before it is packed, is at most the network's factor times the
-- parent's target, and never above the floor, whatever the timestamps.
pub retarget_bounds :
    (p : NetworkParams) (previous_bits previous start old limit : ℕ)
    → 0 < p.max_retarget_factor
    → 0 < p.retarget_interval * p.target_block_time
    → compact_to_target previous_bits ≡ ok old
    → compact_to_target p.pow_limit_bits ≡ ok limit
    → (target : ℕ) × (retarget p previous_bits (clamped_span p previous start) ≡ ok target)
      × (target ≤ old * p.max_retarget_factor)
      × (target ≤ limit)
unfolding retarget
retarget_bounds p previous_bits previous start old limit f i eo el =
    let span = clamped_span p previous start in
    (
      min (old * span / (p.retarget_interval * p.target_block_time)) limit,
      rw (eo, el) refl,
      omega (
        arith,
        scaled_le old span (p.retarget_interval * p.target_block_time) p.max_retarget_factor i
            (clamped_span_bounds p previous start f).1,
      ),
      omega arith,
    )

-- Packing a target and reading it back never gives a larger one.
pack_le :
    (target : ℕ)
    → target < 2 ^ 256
    → (decoded : ℕ) × (compact_to_target (target_to_compact target) ≡ ok decoded)
      × (decoded ≤ target)
pack_le target h = elim (dec_lt 0 target) [
  | yes p ↦
      (let (decoded, e, close) = compact_to_target-target_to_compact target p h in
        (decoded, e, close.0))
  | no z ↦
      (let zero_target : target ≡ 0 = omega arith in
        (0, rw zero_target (unfold compact_to_target target_to_compact in refl), omega arith))
]

-- At a retarget boundary, with a parent target and a floor that decode, `expected_bits` gives bits
-- that decode to a target of at most the network's factor times the parent's, and never above the
-- floor `pow_limit_bits`, whatever the timestamps.
pub expected_bits_bounds :
    (height : ℕ) (p : NetworkParams) (previous_bits previous start old limit : ℕ)
    → 0 < p.max_retarget_factor
    → 0 < p.retarget_interval * p.target_block_time
    → height ≢ 0
    → height % p.retarget_interval ≡ 0
    → compact_to_target previous_bits ≡ ok old
    → compact_to_target p.pow_limit_bits ≡ ok limit
    → limit < 2 ^ 256
    → (bits : ℕ) × (decoded : ℕ) × (expected_bits height p previous_bits previous start ≡ ok bits)
      × (compact_to_target bits ≡ ok decoded)
      × (decoded ≤ old * p.max_retarget_factor)
      × (decoded ≤ limit)
unfolding expected_bits
expected_bits_bounds height p previous_bits previous start old limit f i nonzero boundary eo el
      small =
    let (target, made, by_factor, by_limit) =
      retarget_bounds p previous_bits previous start old limit f i eo el in
    let (decoded, e, le) = pack_le target (omega arith) in
    let not_genesis : (height == 0) ≡ false = ground arith in
    (
      target_to_compact target,
      decoded,
      rw (not_genesis, boundary, made) refl,
      e,
      omega arith,
      omega arith,
    )

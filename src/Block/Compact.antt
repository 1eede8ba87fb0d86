-- ===== src/Block/Compact.antt =====
-- The compact target encoding of obsidion/block.py. A target is a natural number: the tests for a
-- negative one cannot hold, since targets come from these functions and from quotients. `x >> 8 * k`
-- is `x / 256 ^ k`, `x << 8 * k` is `x * 256 ^ k`, `bits & 0x007FFFFF` is `bits % 2 ^ 23`, and
-- `bits & 0x00800000` is the bit `bits / 2 ^ 23 % 2`. In `(size << 24) | mantissa` the mantissa is
-- below 2 ^ 24, so the two parts have no bit in common and `|` is `+`.
pub mod Size
pub mod Precision
use obsidion.Prelude.{ℕ, zero, suc, ◌+◌, ◌-◌, ◌*◌, ◌/◌, ◌%◌, ◌^◌, ltb, leb, ◌==◌, if◌then◌else◌}
use obsidion.Prelude.Result.{ok, err}
use obsidion.Errors.{Try, value_error, negative_compact, target_overflow}

unfoldable pub compact_to_target : ℕ → Try ℕ
compact_to_target bits =
    let exponent = bits / 2 ^ 24 in
    let mantissa = bits % 2 ^ 23 in
    if bits / 2 ^ 23 % 2 == 1
    then err (value_error negative_compact)
    else if mantissa == 0
    then ok 0
    else if ltb 34 exponent
    then err (value_error target_overflow)
    else if leb exponent 3
    then ok (mantissa / 256 ^ (3 - exponent))
    else ok (mantissa * 256 ^ (exponent - 3))

-- Python's `int.bit_length`. The fuel `n` is enough: each round halves the number.
pub bit_length_loop : ℕ → ℕ → ℕ
bit_length_loop zero n = 0
bit_length_loop (suc fuel) n =
    let rest = suc (bit_length_loop fuel (n / 2)) in if n == 0 then 0 else rest

unfoldable pub bit_length : ℕ → ℕ
unfolding bit_length_loop
bit_length n = bit_length_loop n n

-- `(target.bit_length() + 7) // 8`
unfoldable pub byte_size : ℕ → ℕ
unfolding bit_length
byte_size target = (bit_length target + 7) / 8

-- The last lines of `target_to_compact`: the sign bit of the mantissa must stay clear.
unfoldable pub pack_compact : ℕ → ℕ → ℕ
pack_compact size mantissa =
    if mantissa / 2 ^ 23 % 2 == 1
    then (size + 1) * 2 ^ 24 + mantissa / 256
    else size * 2 ^ 24 + mantissa

unfoldable pub target_to_compact : ℕ → ℕ
unfolding byte_size pack_compact
target_to_compact target =
    let size = byte_size target in
    if target == 0
    then 0
    else pack_compact size
        (if leb size 3 then target * 256 ^ (3 - size) else target / 256 ^ (size - 3))

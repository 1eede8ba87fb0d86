-- ===== src/Mempool/Rate.antt =====
-- `MempoolEntry.fee_rate` of obsidion/mempool.py: Python's `int / int` is the nearest double to the
-- quotient, ties to even. A double is written as a multiple of 2 ^ -1074, the smallest one. Past the
-- largest double Python raises, at fees that no sum of amounts reaches.
use obsidion.Prelude.{ℕ, ◌+◌, ◌-◌, ◌*◌, ◌/◌, ◌%◌, ◌^◌, Bool, ◌&&◌, ◌||◌, ltb, ◌==◌, if◌then◌else◌}
use obsidion.Prelude.Int.{ℤ, pos, negsuc, ◌-ℤ◌}
use obsidion.Block.Compact.{bit_length}

-- Whether the quotient `n / unit` is nearer to the next whole number, or as near and odd.
abbrev rounds_up : ℕ → ℕ → Bool
rounds_up n unit = ltb unit (2 * (n % unit)) || ((2 * (n % unit) == unit) && (n / unit % 2 == 1))

-- `n / d`, to 53 binary digits.
unfoldable pub to_double : ℕ → ℕ → ℕ
to_double n d =
    let step = 2 ^ (bit_length (n / d) - 53) in
    if rounds_up n (step * d) then (n / (step * d) + 1) * step else n / (step * d) * step

unfoldable pub double_quotient : ℤ → ℕ → ℤ
double_quotient (pos n) d = pos (to_double (n * 2 ^ 1074) d)
double_quotient (negsuc n) d = pos 0 -ℤ pos (to_double ((n + 1) * 2 ^ 1074) d)

-- `self.fee / self.size if self.size else 0.0`
unfoldable pub fee_rate_of : ℤ → ℕ → ℤ
fee_rate_of fee size = if size == 0 then pos 0 else double_quotient fee size

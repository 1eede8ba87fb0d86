-- ===== src/Tests/Money.antt =====
-- Runs of the emission schedule and of the difficulty rules.
use obsidion.Prelude.{ℕ, ◌≡◌, ◌≤◌, ◌<◌, ◌*◌, ◌/◌, ◌^◌, refl, [], ◌∷◌, arith}
use obsidion.Prelude.Int.{pos}
use obsidion.Prelude.Result.{ok}
use obsidion.Params.{mainnet, regtest}
use obsidion.Consensus.Emission.{circulating_supply, total_supply}
use obsidion.Consensus.Emission.Supply.{
  minted, circulating_supply-eq-minted, minted-le-total_supply,
}
use obsidion.Consensus.Difficulty.{clamped_span, expected_bits, median_time_past}
use obsidion.Consensus.Difficulty.Bounds.{clamped_span_bounds, expected_bits_bounds}
use obsidion.Consensus.Difficulty.Median.{at_most, at_least, median_time_past_lem}
use obsidion.Block.Compact.{compact_to_target, target_to_compact}
use obsidion.Block.Compact.Precision.{IsClose, compact_to_target-target_to_compact}

circulating_supply-eq-minted_example : circulating_supply (pos 25) regtest ≡ minted 25 regtest
circulating_supply-eq-minted_example = circulating_supply-eq-minted 25 regtest (omega arith)

minted-le-total_supply_example : minted 25 regtest ≤ total_supply regtest
minted-le-total_supply_example = minted-le-total_supply 25 regtest (omega arith)

clamped_span_bounds_example :
    (18000 / 4 ≤ clamped_span mainnet 900000 1) × (clamped_span mainnet 900000 1 ≤ 18000 * 4)
clamped_span_bounds_example = clamped_span_bounds mainnet 900000 1 (omega arith)

median_time_past_lem_example :
    (m : ℕ) × (median_time_past (30 ∷ 10 ∷ 20 ∷ []) ≡ ok m)
    × (3 < 2 * at_most m (30 ∷ 10 ∷ 20 ∷ []))
    × (3 ≤ 2 * at_least m (30 ∷ 10 ∷ 20 ∷ []))
median_time_past_lem_example = median_time_past_lem (30 ∷ 10 ∷ 20 ∷ []) (omega arith)

compact_to_target-target_to_compact_example :
    (decoded : ℕ) × (compact_to_target (target_to_compact 0x123456789) ≡ ok decoded)
    × IsClose 0x123456789 decoded
compact_to_target-target_to_compact_example =
    compact_to_target-target_to_compact 0x123456789 (omega arith) (omega arith)

old : compact_to_target 0x1E0FFFFF ≡ ok (0xFFFFF * 256 ^ 27)
unfolding compact_to_target
old = refl

limit : compact_to_target 0x1F0FFFFF ≡ ok (0xFFFFF * 256 ^ 28)
unfolding compact_to_target
limit = refl

expected_bits_bounds_example :
    (bits : ℕ) × (decoded : ℕ) × (expected_bits 240 mainnet 0x1E0FFFFF 900000 1 ≡ ok bits)
    × (compact_to_target bits ≡ ok decoded)
    × (decoded ≤ 0xFFFFF * 256 ^ 27 * 4)
    × (decoded ≤ 0xFFFFF * 256 ^ 28)
expected_bits_bounds_example =
    expected_bits_bounds 240 mainnet 0x1E0FFFFF 900000 1 (0xFFFFF * 256 ^ 27) (0xFFFFF * 256 ^ 28)
      (omega arith) (omega arith) (λ h. cc) refl old limit (omega arith)

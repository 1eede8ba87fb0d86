-- ===== src/Consensus/Emission.antt =====
-- The emission functions of obsidion/consensus.py: the reward, its halvings and the supply.
pub mod Supply
use obsidion.Prelude.{
  ℕ, zero, suc, ◌+◌, ◌-◌, ◌*◌, ◌/◌, ◌^◌, min, Option, none, some, ltb, leb, if◌then◌else◌,
}
use obsidion.Prelude.Int.{ℤ, pos, negsuc}
use obsidion.Prelude.Result.{ok, err}
use obsidion.Errors.{Try, value_error, negative_height}
use obsidion.Params.{NetworkParams}

abbrev pub max_halvings : ℕ
max_halvings = 64

-- `params.initial_subsidy >> era`
unfoldable pub era_reward : ℕ → NetworkParams → ℕ
era_reward era p = p.initial_subsidy / 2 ^ era

-- `subsidy` at a height that is not negative.
unfoldable pub reward : ℕ → NetworkParams → ℕ
unfolding era_reward
reward height p =
    let halvings = height / p.halving_interval in
    if leb max_halvings halvings then 0 else era_reward halvings p

unfoldable pub subsidy : ℤ → NetworkParams → Try ℕ
unfolding reward
subsidy (pos height) p = ok (reward height p)
subsidy (negsuc n) p = err (value_error negative_height)

unfoldable pub halving_era : ℕ → NetworkParams → ℕ
halving_era height p = height / p.halving_interval

unfoldable pub next_halving_height : ℕ → NetworkParams → Option ℕ
unfolding halving_era
next_halving_height height p =
    let era = halving_era height p in
    if leb (max_halvings - 1) era then none else some ((era + 1) * p.halving_interval)

unfoldable pub blocks_until_halving : ℕ → NetworkParams → Option ℕ
unfolding next_halving_height
blocks_until_halving height p = elim (next_halving_height height p) [
  | none ↦ none
  | some target ↦ some (target - height)
]

-- The sum over the eras from `era` on, `rounds` of them.
unfoldable pub total_loop : ℕ → ℕ → NetworkParams → ℕ
unfolding era_reward
total_loop zero era p = 0
total_loop (suc rounds) era p =
    era_reward era p * p.halving_interval + total_loop rounds (suc era) p

unfoldable pub total_supply : NetworkParams → ℕ
unfolding total_loop
total_supply p = total_loop max_halvings 0 p

-- The `while era < MAX_HALVINGS` loop: `rounds` is `MAX_HALVINGS - era`.
unfoldable pub circulating_loop : ℕ → ℕ → ℕ → ℕ → NetworkParams → ℕ
unfolding era_reward
circulating_loop zero era issued height p = issued
circulating_loop (suc rounds) era issued height p =
    let era_start = era * p.halving_interval in
    let era_end = min ((era + 1) * p.halving_interval - 1) height in
    let next =
      circulating_loop rounds (suc era) (issued + era_reward era p * (era_end - era_start + 1))
        height p in
    if ltb height era_start then issued else next

unfoldable pub circulating_supply : ℤ → NetworkParams → ℕ
unfolding circulating_loop
circulating_supply (negsuc n) p = 0
circulating_supply (pos height) p = circulating_loop max_halvings 0 0 height p

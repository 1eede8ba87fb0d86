-- ===== src/Consensus/Emission/Supply.antt =====
-- What the emission functions add up to.
use obsidion.Prelude.{
  ℕ, zero, suc, ◌+◌, ◌-◌, ◌*◌, ◌/◌, ◌≤◌, ◌<◌, ◌≡◌, refl, arith, min, sym, ◌∙◌, ltb, if◌then◌else◌,
}
use native.Mathlib.Decide.{ℕ_discrete}
use obsidion.Prelude.Int.{pos}
use obsidion.Params.{NetworkParams}
use obsidion.Consensus.Emission.{
  era_reward, reward, max_halvings, total_loop, total_supply, circulating_loop, circulating_supply,
}

-- The rewards of the blocks from genesis through `height`, added one by one.
pub minted : ℕ → NetworkParams → ℕ
minted zero p = reward 0 p
minted (suc height) p = minted height p + reward (suc height) p

-- What the loop adds from the era `era` on, without the running total.
from_era : ℕ → ℕ → ℕ → NetworkParams → ℕ
from_era zero era height p = 0
from_era (suc rounds) era height p =
    let start = era * p.halving_interval in
    let rest = from_era rounds (suc era) height p in
    if ltb height start
    then 0
    else era_reward era p * (min ((era + 1) * p.halving_interval - 1) height - start + 1) + rest

circulating_loop-from_era :
    (rounds era issued height : ℕ) (p : NetworkParams)
    → circulating_loop rounds era issued height p ≡ issued + from_era rounds era height p
unfolding circulating_loop from_era
circulating_loop-from_era zero era issued height p = omega arith
circulating_loop-from_era (suc rounds) era issued height p = ground (
  arith,
  circulating_loop-from_era rounds (suc era)
      (issued
        + era_reward era p
          * (min ((era + 1) * p.halving_interval - 1) height - era * p.halving_interval + 1))
      height p,
)

from_era-stops :
    (rounds era height : ℕ) (p : NetworkParams)
    → height < era * p.halving_interval
    → from_era rounds era height p ≡ 0
unfolding from_era
from_era-stops zero era height p h = refl
from_era-stops (suc rounds) era height p h = ground arith

mul_le : (a b k : ℕ) → a ≤ b → a * k ≤ b * k
mul_le a b k h = grind arith

-- The block at `suc height` lies in era `q`.
module _ (p : NetworkParams) (height q : ℕ) (lo : q * p.halving_interval ≤ suc height)
    (hi : suc height < q * p.halving_interval + p.halving_interval) where
  last_era :
      (rounds : ℕ)
      → from_era (suc rounds) q (suc height) p ≡ from_era (suc rounds) q height p + era_reward q p
  unfolding from_era
  last_era rounds =
      ground (
        arith,
        from_era-stops rounds (suc q) (suc height) p,
        from_era-stops rounds (suc q) height p,
      )

  full_era :
      (rounds era : ℕ)
      → era < q
      → from_era (suc rounds) era (suc height) p + from_era rounds (suc era) height p
        ≡ from_era (suc rounds) era height p + from_era rounds (suc era) (suc height) p
  unfolding from_era
  full_era rounds era h = ground (arith, mul_le (suc era) q p.halving_interval h)

  -- One block more adds the reward of its era, if the loop reaches that era.
  from_era-suc :
      (rounds era : ℕ)
      → era ≤ q
      → q < era + rounds
      → from_era rounds era (suc height) p ≡ from_era rounds era height p + era_reward q p
  from_era-suc zero era h k = absurd (omega arith)
  from_era-suc (suc rounds) era h k = elim (ℕ_discrete era q) [
    | yes e ↦ rw e (last_era rounds)
    | no e ↦ omega (
      arith,
      full_era rounds era (omega arith),
      from_era-suc rounds (suc era) (omega arith) (omega arith),
    )
  ]

  from_era-suc_late :
      (rounds era : ℕ)
      → era + rounds ≤ q
      → from_era rounds era (suc height) p ≡ from_era rounds era height p
  unfolding from_era
  from_era-suc_late zero era h = refl
  from_era-suc_late (suc rounds) era h =
      omega
        (arith, full_era rounds era (omega arith), from_era-suc_late rounds (suc era) (omega arith))

reward-genesis : (p : NetworkParams) → 0 < p.halving_interval → reward 0 p ≡ era_reward 0 p
unfolding reward
reward-genesis p positive = let e : 0 / p.halving_interval ≡ 0 = grind arith in rw e refl

from_era-genesis :
    (rounds : ℕ) (p : NetworkParams)
    → 0 < p.halving_interval
    → from_era (suc rounds) 0 0 p ≡ era_reward 0 p
unfolding from_era
from_era-genesis rounds p positive = ground (arith, from_era-stops rounds 1 0 p)

era_bounds : (n k : ℕ) → 0 < k → (n / k * k ≤ n) × (n < n / k * k + k)
era_bounds n k h = (grind arith, grind arith)

from_era-eq-minted :
    (height : ℕ) (p : NetworkParams)
    → 0 < p.halving_interval
    → from_era max_halvings 0 height p ≡ minted height p
unfolding minted reward
from_era-eq-minted zero p h = from_era-genesis 63 p h ∙ sym (reward-genesis p h)
from_era-eq-minted (suc height) p h =
    let q = suc height / p.halving_interval in
    let (lo, hi) = era_bounds (suc height) p.halving_interval h in
    ground (
      arith,
      from_era-eq-minted height p h,
      from_era-suc p height q lo hi 64 0,
      from_era-suc_late p height q lo hi 64 0,
    )

-- With a positive halving interval, the loop of `circulating_supply` gives, at every height, the
-- sum of the rewards that `subsidy` allows to the blocks from genesis through that height.
pub circulating_supply-eq-minted :
    (height : ℕ) (p : NetworkParams)
    → 0 < p.halving_interval
    → circulating_supply (pos height) p ≡ minted height p
unfolding circulating_supply
circulating_supply-eq-minted height p h =
    omega (arith, circulating_loop-from_era 64 0 0 height p, from_era-eq-minted height p h)

from_era-le-total :
    (rounds era height : ℕ) (p : NetworkParams)
    → 0 < p.halving_interval
    → from_era rounds era height p ≤ total_loop rounds era p
unfolding from_era total_loop
from_era-le-total zero era height p h = omega arith
from_era-le-total (suc rounds) era height p h = ground (
  arith,
  from_era-le-total rounds (suc era) height p h,
  mul_le (min ((era + 1) * p.halving_interval - 1) height - era * p.halving_interval + 1)
      p.halving_interval (era_reward era p) (omega arith),
)

-- With a positive halving interval, the rewards of any number of blocks add up to no more than
-- `total_supply`.
pub minted-le-total_supply :
    (height : ℕ) (p : NetworkParams) → 0 < p.halving_interval → minted height p ≤ total_supply p
unfolding total_supply
minted-le-total_supply height p h =
    omega (arith, from_era-eq-minted height p h, from_era-le-total 64 0 height p h)

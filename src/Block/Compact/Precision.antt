-- ===== src/Block/Compact/Precision.antt =====
-- What a target loses when it is packed into the four bytes of `bits`.
use native.Mathlib.Nat.{pow-suc, one-le-pow, pow-le-pow_right}
use native.Mathlib.Decide.{dec_lt}
use obsidion.Prelude.{
  ℕ, zero, suc, ◌+◌, ◌-◌, ◌*◌, ◌/◌, ◌%◌, ◌^◌, ◌≤◌, ◌<◌, ◌≡◌, refl, ap, ◌∙◌, leb, ◌==◌,
  if◌then◌else◌, inl, inr, false, Bool-cases, arith,
}
use obsidion.Prelude.Result.{ok}
use obsidion.Block.Compact.{compact_to_target, target_to_compact, pack_compact}
use obsidion.Block.Compact.Size.{byte_size_lem}

-- `loss` is what a target of `target` shards down to, and how much of it may be gone.
abbrev pub IsClose : ℕ → ℕ → Type 0
IsClose target decoded = (decoded ≤ target) × ((target - decoded) * 32768 ≤ target)

-- The bits of `bits` for an exponent `e` and a mantissa with a clear sign bit.
fields :
    (e m : ℕ)
    → m < 2 ^ 23
    → ((e * 2 ^ 24 + m) / 2 ^ 24 ≡ e)
      × ((e * 2 ^ 24 + m) % 2 ^ 23 ≡ m)
      × ((e * 2 ^ 24 + m) / 2 ^ 23 % 2 ≡ 0)
fields e m h = (omega arith, omega arith, omega arith)

decode_large :
    (e m : ℕ)
    → 3 < e
    → e ≤ 34
    → 0 < m
    → m < 2 ^ 23
    → compact_to_target (e * 2 ^ 24 + m) ≡ ok (m * 256 ^ (e - 3))
unfolding compact_to_target
decode_large e m lo hi p h = let (a, b, c) = fields e m h in rw (a, b, c) (ground arith)

decode_small :
    (e m : ℕ)
    → e ≤ 3
    → 0 < m
    → m < 2 ^ 23
    → compact_to_target (e * 2 ^ 24 + m) ≡ ok (m / 256 ^ (3 - e))
unfolding compact_to_target
decode_small e m hi p h = let (a, b, c) = fields e m h in rw (a, b, c) (ground arith)

-- A quotient `q` with remainder below `unit`, scaled back up.
IsClose-of_quotient :
    (target q unit : ℕ)
    → q * unit ≤ target
    → target < q * unit + unit
    → 32768 * unit ≤ target
    → IsClose target (q * unit)
IsClose-of_quotient target q unit lo hi big = (lo, omega arith)

quotient : (n d : ℕ) → 0 < d → (n / d * d ≤ n) × (n < n / d * d + d)
quotient n d h = (grind arith, grind arith)

quotient_bounds : (n d k m : ℕ) → 0 < d → k * d ≤ n → n < m * d → (k ≤ n / d) × (n / d < m)
quotient_bounds n d k m h lo hi = (grind arith, grind arith)

mul_le : (a b k : ℕ) → a ≤ b → a * k ≤ b * k
mul_le a b k h = grind arith

-- Two divisions in a row.
quotient_twice :
    (m q unit target : ℕ)
    → m * 256 ≤ q
    → q < m * 256 + 256
    → q * unit ≤ target
    → target < q * unit + unit
    → (m * (unit * 256) ≤ target) × (target < m * (unit * 256) + unit * 256)
quotient_twice m q unit target a b lo hi =
    (omega (arith, mul_le (m * 256) q unit a), omega (arith, mul_le (suc q) (m * 256 + 256) unit b))

pow_pos : (j : ℕ) → 0 < 256 ^ j
pow_pos j = one-le-pow j 256 (omega arith)

-- Targets of four bytes and more: `256 ^ suc j` is the weight of the mantissa's last bit.
module _ (j target : ℕ) (fits : j + 5 ≤ 34) (lo : 65536 * 256 ^ suc j ≤ target)
    (hi : target < 16777216 * 256 ^ suc j) where
  range : (65536 ≤ target / 256 ^ suc j) × (target / 256 ^ suc j < 16777216)
  range = quotient_bounds target (256 ^ suc j) 65536 16777216 (pow_pos (suc j)) lo hi

  pack_clear :
      target / 256 ^ suc j < 2 ^ 23
      → (decoded : ℕ) × (compact_to_target ((j + 4) * 2 ^ 24 + target / 256 ^ suc j) ≡ ok decoded)
        × IsClose target decoded
  pack_clear h =
      let e : j + 4 - 3 ≡ suc j = omega arith in
      let (a, b) = quotient target (256 ^ suc j) (pow_pos (suc j)) in
      (
        target / 256 ^ suc j * 256 ^ suc j,
        decode_large (j + 4) (target / 256 ^ suc j) (omega arith) (omega arith)
              (omega (arith, range)) h
            ∙ rw e refl,
        IsClose-of_quotient target (target / 256 ^ suc j) (256 ^ suc j) a b (omega arith),
      )

  pack_sign :
      2 ^ 23 ≤ target / 256 ^ suc j
      → (decoded : ℕ) × (compact_to_target ((j + 4 + 1) * 2 ^ 24 + target / 256 ^ suc j / 256)
          ≡ ok decoded)
        × IsClose target decoded
  pack_sign h =
      let q = target / 256 ^ suc j in
      let e : j + 4 + 1 - 3 ≡ suc (suc j) = omega arith in
      let (a, b) = quotient target (256 ^ suc j) (pow_pos (suc j)) in
      let (c, d) =
        quotient_twice (q / 256) q (256 ^ suc j) target (omega arith) (omega arith) a b in
      (
        q / 256 * (256 ^ suc j * 256),
        decode_large (j + 4 + 1) (q / 256) (omega arith) (omega arith) (omega arith)
              (omega (arith, range))
            ∙ rw (e, pow-suc 256 (suc j)) refl,
        IsClose-of_quotient target (q / 256) (256 ^ suc j * 256) c d
            (omega (arith, mul_le 8388608 q (256 ^ suc j) h)),
      )

  pack_large :
      (decoded : ℕ) × (compact_to_target (pack_compact (j + 4) (target / 256 ^ suc j)) ≡ ok decoded)
      × IsClose target decoded
  unfolding pack_compact
  pack_large = elim (Bool-cases (target / 256 ^ suc j / 2 ^ 23 % 2 == 1)) [
    | inl sign ↦ rw sign (pack_sign (ground arith))
    | inr clear ↦ rw clear (pack_clear (ground (arith, range)))
  ]

pack_one :
    (target : ℕ)
    → 0 < target
    → target < 256
    → compact_to_target (pack_compact 1 (target * 256 ^ 2)) ≡ ok target
unfolding pack_compact
pack_one target p h = elim (Bool-cases (target * 256 ^ 2 / 2 ^ 23 % 2 == 1)) [
  | inl sign ↦ rw sign (
      decode_small 2 (target * 256 ^ 2 / 256) (omega arith) (omega arith) (omega arith)
      ∙ ap ok (omega arith))
  | inr clear ↦ rw clear (
      decode_small 1 (target * 256 ^ 2) (omega arith) (omega arith) (ground arith)
      ∙ ap ok (omega arith))
]

pack_two :
    (target : ℕ)
    → 0 < target
    → target < 256 ^ 2
    → compact_to_target (pack_compact 2 (target * 256 ^ 1)) ≡ ok target
unfolding pack_compact
pack_two target p h = elim (Bool-cases (target * 256 ^ 1 / 2 ^ 23 % 2 == 1)) [
  | inl sign ↦ rw sign (
      decode_small 3 (target * 256 ^ 1 / 256) (omega arith) (omega arith) (omega arith)
      ∙ ap ok (omega arith))
  | inr clear ↦ rw clear (
      decode_small 2 (target * 256 ^ 1) (omega arith) (omega arith) (ground arith)
      ∙ ap ok (omega arith))
]

pack_three :
    (target : ℕ)
    → 256 ^ 2 ≤ target
    → target < 256 ^ 3
    → (decoded : ℕ) × (compact_to_target (pack_compact 3 (target * 256 ^ 0)) ≡ ok decoded)
      × IsClose target decoded
unfolding pack_compact
pack_three target lo hi =
    let e : target * 256 ^ 0 ≡ target = omega arith in
    rw e (elim (Bool-cases (target / 2 ^ 23 % 2 == 1)) [
      | inl sign ↦ rw sign (
        target / 256 * 256,
        decode_large 4 (target / 256) (omega arith) (omega arith) (omega arith) (omega arith),
        ground arith,
      )
      | inr clear ↦ rw clear (
        target,
        decode_small 3 target (omega arith) (omega arith) (ground arith) ∙ ap ok (omega arith),
        omega arith,
      )
    ])

pow_up :
    (j : ℕ) → (256 ^ suc (suc j) ≡ 65536 * 256 ^ j) × (256 ^ suc (suc (suc j)) ≡ 16777216 * 256 ^ j)
pow_up j = (
  omega (arith, pow-suc 256 j, pow-suc 256 (suc j)),
  omega (arith, pow-suc 256 j, pow-suc 256 (suc j), pow-suc 256 (suc (suc j))),
)

pow_lt_size : (s : ℕ) → 256 ^ s < 2 ^ 256 → s < 32
pow_lt_size s h = elim (dec_lt s 32) [
  | yes small ↦ small
  | no big ↦
      absurd
        (omega (arith, pow-le-pow_right {n = 256} (omega arith) {i = 32} {j = s} (omega arith)))
]

-- For every positive 256-bit target, decoding its compact form succeeds, and gives a target that is
-- not larger (so the encoding never makes mining easier) and smaller by at most one part in 32768.
pub compact_to_target-target_to_compact :
    (target : ℕ)
    → 0 < target
    → target < 2 ^ 256
    → (decoded : ℕ) × (compact_to_target (target_to_compact target) ≡ ok decoded)
      × IsClose target decoded
unfolding target_to_compact
compact_to_target-target_to_compact target p h =
    let (s, e, lo, hi) = byte_size_lem target target p (omega arith) in
    let nonzero : (target == 0) ≡ false = ground arith in rw (nonzero, e) (by_size s lo hi)
  where
    by_size :
        (s : ℕ)
        → 256 ^ s ≤ target
        → target < 256 ^ suc s
        → (decoded : ℕ) × (compact_to_target (
              pack_compact
                (suc s)
                (if leb (suc s) 3 then target * 256 ^ (3 - suc s) else target / 256 ^ (suc s - 3)))
            ≡ ok decoded)
          × IsClose target decoded
    by_size zero lo hi = (target, pack_one target p hi, omega arith)
    by_size (suc zero) lo hi = (target, pack_two target p hi, omega arith)
    by_size (suc (suc zero)) lo hi = pack_three target lo hi
    by_size (suc (suc (suc j))) lo hi =
        let four : suc (suc (suc (suc j))) ≡ j + 4 = omega arith in
        let above : leb (j + 4) 3 ≡ false = ground arith in
        let shift : j + 4 - 3 ≡ suc j = omega arith in
        rw (four, above, shift)
          (pack_large j target (omega (arith, pow_lt_size (suc (suc (suc j))) (omega arith)))
            (omega (arith, pow_up (suc j))) (omega (arith, pow_up (suc j))))

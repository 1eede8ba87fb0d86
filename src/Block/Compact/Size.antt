-- ===== src/Block/Compact/Size.antt =====
-- `(target.bit_length() + 7) // 8` is the number of bytes of the target.
use native.Mathlib.Nat.{pow-suc}
use native.Mathlib.Decide.{dec_lt}
use obsidion.Prelude.{ℕ, zero, suc, ◌+◌, ◌/◌, ◌^◌, ◌≤◌, ◌<◌, ◌≡◌, refl, ap, ◌∙◌, arith}
use obsidion.Block.Compact.{bit_length_loop, bit_length, byte_size}

-- Any two amounts of fuel that are enough give the same number.
enough_fuel : (f g n : ℕ) → n ≤ f → n ≤ g → bit_length_loop f n ≡ bit_length_loop g n
unfolding bit_length_loop
enough_fuel zero zero n hf hg = refl
enough_fuel zero (suc g) n hf hg = ground arith
enough_fuel (suc f) zero n hf hg = ground arith
enough_fuel (suc f) (suc g) n hf hg = ground (arith, enough_fuel f g (n / 2))

bit_length-pos : (n : ℕ) → 0 < n → bit_length n ≡ suc (bit_length (n / 2))
unfolding bit_length bit_length_loop
bit_length-pos zero h = elim h [ ]
bit_length-pos (suc n) h = ground (arith, enough_fuel n (suc n / 2) (suc n / 2))

bit_length-zero : bit_length 0 ≡ 0
unfolding bit_length bit_length_loop
bit_length-zero = refl

halves : (n : ℕ) → n / 2 / 2 / 2 / 2 / 2 / 2 / 2 / 2 ≡ n / 256
halves n = omega arith

bit_length-byte : (n : ℕ) → 256 ≤ n → bit_length n ≡ bit_length (n / 256) + 8
bit_length-byte n h = omega (
  arith,
  bit_length-pos n (omega arith),
  bit_length-pos (n / 2) (omega arith),
  bit_length-pos (n / 2 / 2) (omega arith),
  bit_length-pos (n / 2 / 2 / 2) (omega arith),
  bit_length-pos (n / 2 / 2 / 2 / 2) (omega arith),
  bit_length-pos (n / 2 / 2 / 2 / 2 / 2) (omega arith),
  bit_length-pos (n / 2 / 2 / 2 / 2 / 2 / 2) (omega arith),
  bit_length-pos (n / 2 / 2 / 2 / 2 / 2 / 2 / 2) (omega arith),
  ap bit_length (halves n),
)

bit_length-le : (k n : ℕ) → n < 2 ^ k → bit_length n ≤ k
bit_length-le zero n h = let e : n ≡ 0 = omega arith in rw (e, bit_length-zero) (omega arith)
bit_length-le (suc k) zero h = rw bit_length-zero (omega arith)
bit_length-le (suc k) (suc n) h = omega (
  arith,
  pow-suc 2 k,
  bit_length-pos (suc n) (omega arith),
  bit_length-le k (suc n / 2) (omega (arith, pow-suc 2 k)),
)

byte_size-one : (n : ℕ) → 0 < n → n < 256 → byte_size n ≡ 1
unfolding byte_size
byte_size-one n h k = omega (arith, bit_length-pos n h, bit_length-le 8 n k)

byte_size-suc : (n : ℕ) → 256 ≤ n → byte_size n ≡ suc (byte_size (n / 256))
unfolding byte_size
byte_size-suc n h = omega (arith, bit_length-byte n h)

-- A number lies between the powers of 256 that its size in bytes names.
pub byte_size_lem :
    (fuel n : ℕ)
    → 0 < n
    → n ≤ fuel
    → (s : ℕ) × (byte_size n ≡ suc s) × (256 ^ s ≤ n) × (n < 256 ^ suc s)
byte_size_lem zero n h k = absurd (omega arith)
byte_size_lem (suc fuel) n h k = elim (dec_lt n 256) [
  | yes small ↦ (0, byte_size-one n h small, omega arith, omega arith)
  | no big ↦
      let (s, e, lo, hi) = byte_size_lem fuel (n / 256) (omega arith) (omega arith) in
      (
        suc s,
        byte_size-suc n (omega arith) ∙ ap suc e,
        omega (arith, pow-suc 256 s),
        omega (arith, pow-suc 256 s, pow-suc 256 (suc s)),
      )
]

-- ===== src/Wire/Numbers.antt =====
-- Unpacking what was packed.
use native.Mathlib.Nat.{pow-suc}
use obsidion.Prelude.{ℕ, zero, suc, ◌-◌, ◌/◌, ◌^◌, ◌<◌, ◌≡◌, refl, ap, Bytes, length, arith}
use obsidion.Prelude.Int.{ℤ, pos, negsuc}
use obsidion.Prelude.Result.{ok}
use obsidion.Wire.{le_bytes, from_le, pack_unsigned, unpack_unsigned, pack_signed, unpack_signed}

pub length-le_bytes : (width n : ℕ) → length (le_bytes width n) ≡ width
unfolding le_bytes
length-le_bytes zero n = refl
length-le_bytes (suc width) n = ap suc (length-le_bytes width (n / 256))

from_le-le_bytes : (width n : ℕ) → n < 256 ^ width → from_le (le_bytes width n) ≡ n
unfolding le_bytes from_le
from_le-le_bytes zero n h = omega arith
from_le-le_bytes (suc width) n h =
    omega (
      arith,
      pow-suc 256 width,
      from_le-le_bytes width (n / 256) (omega (arith, pow-suc 256 width)),
    )

-- What `pack` accepts, `unpack` gives back, and it has the format's size.
pub unpack-pack_unsigned :
    (width n : ℕ) (raw : Bytes)
    → pack_unsigned width n ≡ ok raw
    → (unpack_unsigned raw ≡ n) × (length raw ≡ width)
unfolding pack_unsigned unpack_unsigned
unpack-pack_unsigned width n raw h =
    ground (arith, from_le-le_bytes width n, length-le_bytes width n)

pub unpack-pack_signed :
    (width : ℕ) (z : ℤ) (raw : Bytes)
    → pack_signed width z ≡ ok raw
    → (unpack_signed width raw ≡ z) × (length raw ≡ width)
unfolding pack_signed unpack_signed
unpack-pack_signed width (pos n) raw h =
    ground (arith, from_le-le_bytes width n, length-le_bytes width n)
unpack-pack_signed width (negsuc n) raw h = ground (
  arith,
  from_le-le_bytes width (256 ^ width - 1 - n),
  length-le_bytes width (256 ^ width - 1 - n),
)

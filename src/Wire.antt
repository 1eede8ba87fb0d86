-- ===== src/Wire.antt =====
-- Python's `struct` in the little-endian formats that the program uses, and slices of a buffer read
-- at an offset (`_read_exactly` of obsidion/transaction.py).
pub mod Reading
pub mod Numbers
use obsidion.Prelude.{
  ℕ, zero, suc, ◌+◌, ◌-◌, ◌*◌, ◌/◌, ◌%◌, ◌^◌, List, [], ◌∷◌, ◌++◌, Bytes, length, take, drop, ltb,
  if◌then◌else◌,
}
use obsidion.Prelude.Int.{ℤ, pos, negsuc}
use obsidion.Prelude.Result.{ok, err, ◌>>=◌}
use obsidion.Errors.{Try, value_error, truncated, struct_error}

-- The `width` bytes of `n`, lowest first.
pub le_bytes : ℕ → ℕ → Bytes
le_bytes zero n = []
le_bytes (suc width) n = n % 256 ∷ le_bytes width (n / 256)

pub from_le : Bytes → ℕ
from_le [] = 0
from_le (b ∷ bs) = b + 256 * from_le bs

-- `struct.pack` with "<B", "<H", "<I" or "<Q": `width` is 1, 2, 4 or 8.
unfoldable pub pack_unsigned : ℕ → ℕ → Try Bytes
unfolding le_bytes
pack_unsigned width n = if ltb n (256 ^ width) then ok (le_bytes width n) else err struct_error

-- `struct.unpack`, on a slice of the format's size.
unfoldable pub unpack_unsigned : Bytes → ℕ
unfolding from_le
unpack_unsigned = from_le

-- `struct.pack` with "<i" or "<q": two's complement in 4 or 8 bytes.
unfoldable pub pack_signed : ℕ → ℤ → Try Bytes
unfolding le_bytes
pack_signed width (pos n) =
    if ltb n (256 ^ width / 2) then ok (le_bytes width n) else err struct_error
pack_signed width (negsuc n) =
    if ltb n (256 ^ width / 2) then ok (le_bytes width (256 ^ width - 1 - n)) else err struct_error

unfoldable pub unpack_signed : ℕ → Bytes → ℤ
unfolding from_le
unpack_signed width raw =
    let n = from_le raw in if ltb n (256 ^ width / 2) then pos n else negsuc (256 ^ width - 1 - n)

-- A reader takes the buffer and an offset, and returns a value and the offset behind it.
abbrev pub Reader : Type 0 → Type 0
Reader A = Bytes → ℕ → Try (A × ℕ)

-- `_read_exactly(data, offset, count)`
unfoldable pub read_exactly : ℕ → Reader Bytes
read_exactly count buffer offset =
    if ltb (length buffer) (offset + count)
    then err (value_error truncated)
    else ok (take count (drop offset buffer), offset + count)

module _ {A : Type 0} where
  -- `for _ in range(count)` around one reader, collecting what it returns.
  unfoldable pub read_many : Reader A → ℕ → Reader (List A)
  read_many one zero buffer offset = ok ([], offset)
  read_many one (suc count) buffer offset = do
    (x, next) ← one buffer offset
    (xs, end) ← read_many one count buffer next
    ok (x ∷ xs, end)

module _ {A : Type 0} where
  -- `b"".join(f(x) for x in xs)`
  unfoldable pub join_map : (A → Try Bytes) → List A → Try Bytes
  join_map f [] = ok []
  join_map f (x ∷ xs) = do first ← f x; rest ← join_map f xs; ok (first ++ rest)

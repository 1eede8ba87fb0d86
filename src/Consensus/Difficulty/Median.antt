-- ===== src/Consensus/Difficulty/Median.antt =====
-- The median of timestamps, against a description that does not sort.
use obsidion.Prelude.{
  ℕ, zero, suc, ◌+◌, ◌*◌, ◌/◌, ◌≤◌, ◌<◌, ◌≡◌, refl, List, [], ◌∷◌, length, get_elem?, some, All,
  leb, if◌then◌else◌, arith, Bool-cases, inl, inr,
}
use obsidion.Prelude.Result.{ok}
use obsidion.Consensus.Difficulty.{insert_sorted, sorted, median_time_past}

-- How many of the timestamps are at most `m`, and how many are at least `m`.
abbrev pub at_most : ℕ → List ℕ → ℕ
at_most m [] = 0
at_most m (x ∷ xs) = (if leb x m then 1 else 0) + at_most m xs

abbrev pub at_least : ℕ → List ℕ → ℕ
at_least m [] = 0
at_least m (x ∷ xs) = (if leb m x then 1 else 0) + at_least m xs

abbrev IsSorted : List ℕ → Type 0
IsSorted [] = Unit
IsSorted (x ∷ xs) = All (λ y. x ≤ y) xs × IsSorted xs

length-insert_sorted : (x : ℕ) (xs : List ℕ) → length (insert_sorted x xs) ≡ suc (length xs)
unfolding insert_sorted
length-insert_sorted x [] = refl
length-insert_sorted x (y ∷ ys) = ground (arith, length-insert_sorted x ys)

length-sorted : (xs : List ℕ) → length (sorted xs) ≡ length xs
unfolding sorted
length-sorted [] = refl
length-sorted (x ∷ xs) = omega (arith, length-insert_sorted x (sorted xs), length-sorted xs)

-- Sorting keeps both counts.
module _ (m : ℕ) where
  at_most-insert : (x : ℕ) (xs : List ℕ) → at_most m (insert_sorted x xs) ≡ at_most m (x ∷ xs)
  unfolding insert_sorted
  at_most-insert x [] = refl
  at_most-insert x (y ∷ ys) = ground (arith, at_most-insert x ys)

  at_least-insert : (x : ℕ) (xs : List ℕ) → at_least m (insert_sorted x xs) ≡ at_least m (x ∷ xs)
  unfolding insert_sorted
  at_least-insert x [] = refl
  at_least-insert x (y ∷ ys) = ground (arith, at_least-insert x ys)

  counts-sorted :
      (xs : List ℕ)
      → (at_most m (sorted xs) ≡ at_most m xs) × (at_least m (sorted xs) ≡ at_least m xs)
  unfolding sorted
  counts-sorted [] = (refl, refl)
  counts-sorted (x ∷ xs) = (
    omega (arith, at_most-insert x (sorted xs), (counts-sorted xs).0),
    omega (arith, at_least-insert x (sorted xs), (counts-sorted xs).1),
  )

All-weaken : (x y : ℕ) (xs : List ℕ) → x ≤ y → All (λ z. y ≤ z) xs → All (λ z. x ≤ z) xs
All-weaken x y [] h a = tt
All-weaken x y (z ∷ xs) h a = (omega arith, All-weaken x y xs h a.1)

All-insert : (P : ℕ → Type 0) (x : ℕ) (xs : List ℕ) → P x → All P xs → All P (insert_sorted x xs)
unfolding insert_sorted
All-insert P x [] px a = (px, tt)
All-insert P x (y ∷ ys) px a = elim (Bool-cases (leb x y)) [
  | inl le ↦ rw le (px, a)
  | inr gt ↦ rw gt (a.0, All-insert P x ys px a.1)
]

IsSorted-insert : (x : ℕ) (xs : List ℕ) → IsSorted xs → IsSorted (insert_sorted x xs)
unfolding insert_sorted
IsSorted-insert x [] s = (tt, tt)
IsSorted-insert x (y ∷ ys) s = elim (Bool-cases (leb x y)) [
  | inl le ↦ rw le ((ground arith, All-weaken x y ys (ground arith) s.0), s)
  | inr gt ↦ rw gt (All-insert (λ z. y ≤ z) x ys (ground arith) s.0, IsSorted-insert x ys s.1)
]

IsSorted-sorted : (xs : List ℕ) → IsSorted (sorted xs)
unfolding sorted
IsSorted-sorted [] = tt
IsSorted-sorted (x ∷ xs) = IsSorted-insert x (sorted xs) (IsSorted-sorted xs)

at_least-All : (m : ℕ) (xs : List ℕ) → All (λ y. m ≤ y) xs → at_least m xs ≡ length xs
at_least-All m [] a = refl
at_least-All m (x ∷ xs) a = ground (arith, at_least-All m xs a.1)

-- The entry at `k` of a sorted list has `k + 1` entries at most as large, and the rest at least.
entry :
    (k m : ℕ) (xs : List ℕ)
    → IsSorted xs
    → get_elem? xs k ≡ some m
    → (suc k ≤ at_most m xs) × (length xs ≤ at_least m xs + k)
entry k m [] s e = cc
entry zero m (x ∷ xs) s e =
    let same : x ≡ m = ground arith in
    rw same (ground arith, ground (arith, at_least-All m xs (rw same at s.0)))
entry (suc k) m (x ∷ xs) s e =
    let (a, b) = entry k m xs s.1 e in (ground (arith, le_entry k xs), omega arith)
  where
    le_entry : (k : ℕ) (xs : List ℕ) → All (λ y. x ≤ y) xs → get_elem? xs k ≡ some m → x ≤ m
    le_entry k [] a e = cc
    le_entry zero (y ∷ ys) a e = ground arith
    le_entry (suc k) (y ∷ ys) a e = le_entry k ys a.1 e

get_elem?-lt : (k : ℕ) (xs : List ℕ) → k < length xs → (m : ℕ) × (get_elem? xs k ≡ some m)
get_elem?-lt k [] h = absurd (omega arith)
get_elem?-lt zero (x ∷ xs) h = (x, refl)
get_elem?-lt (suc k) (x ∷ xs) h = get_elem?-lt k xs (omega arith)

-- Of any timestamps, at least one, `median_time_past` gives a number `m` such that more than half of
-- them are at most `m`, and at least half of them are at least `m`.
pub median_time_past_lem :
    (timestamps : List ℕ)
    → 0 < length timestamps
    → (m : ℕ) × (median_time_past timestamps ≡ ok m)
      × (length timestamps < 2 * at_most m timestamps)
      × (length timestamps ≤ 2 * at_least m timestamps)
unfolding median_time_past
median_time_past_lem timestamps h =
    let k = length (sorted timestamps) / 2 in
    let len = length-sorted timestamps in
    let (m, e) = get_elem?-lt k (sorted timestamps) (omega arith) in
    let (a, b) = entry k m (sorted timestamps) (IsSorted-sorted timestamps) e in
    let (c, d) = counts-sorted m timestamps in (m, rw e refl, omega arith, omega arith)

-- ===== src/Merkle/Binding.antt =====
-- A root commits to the list that it was computed from, unless SHA-256d has a collision.
use obsidion.Prelude.{
  ℕ, zero, suc, ◌+◌, ◌%◌, ◌≡◌, ◌≢◌, ◌⊎◌, inl, inr, refl, ap, List, [], ◌∷◌, ◌++◌, Bytes, length,
  All, arith, Bool-cases, ◌==◌, ◌&&◌, leb,
}
use obsidion.Prelude.Eq.{◌=?◌, =?-refl, =?-eq, List_eq, ℕ_eq}
use obsidion.Prelude.Result.{ok, >>=-eq-ok, ok-injective}
use obsidion.Crypto.{Platform, sha256d}
use obsidion.Merkle.{
  ends_in_pair, repeat_last, even_row, pair_hash, hash_pairs, root_loop, merkle_root,
}

-- Two different inputs with one SHA-256d hash.
abbrev pub Collision : Platform → Type 0
Collision c = (x : Bytes) × (y : Bytes) × (x ≢ y) × (sha256d c x ≡ sha256d c y)

-- Every entry has the length of a hash.
abbrev pub AreHashes : List Bytes → Type 0
AreHashes row = All (λ h. length h ≡ 32) row

Bytes-cases : (x y : Bytes) → (x ≡ y) ⊎ (x ≢ y)
Bytes-cases x y = elim (Bool-cases (x =? y)) [
  | inl same ↦ inl (=?-eq x y same)
  | inr differ ↦ inr (λ e. ground (arith, ap (λ z. z =? y) e, =?-refl y))
]

append-injective : (a b x y : Bytes) → length a ≡ length x → a ++ b ≡ x ++ y → (a ≡ x) × (b ≡ y)
append-injective [] b [] y h e = (refl, e)
append-injective [] b (w ∷ x) y h e = cc
append-injective (v ∷ a) b [] y h e = cc
append-injective (v ∷ a) b (w ∷ x) y h e =
    let (p, q) = append-injective a b x y (ground arith) (ground arith) in (ground arith, q)

repeat_last-injective :
    (row row' : List Bytes)
    → length row ≡ length row'
    → repeat_last row ≡ repeat_last row'
    → row ≡ row'
unfolding repeat_last
repeat_last-injective [] [] len e = refl
repeat_last-injective [] (x ∷ row') len e = absurd (omega arith)
repeat_last-injective (a ∷ row) [] len e = absurd (omega arith)
repeat_last-injective (a ∷ []) (x ∷ []) len e = ground arith
repeat_last-injective (a ∷ []) (x ∷ y ∷ row') len e = absurd (omega arith)
repeat_last-injective (a ∷ b ∷ row) (x ∷ []) len e = absurd (omega arith)
repeat_last-injective (a ∷ b ∷ row) (x ∷ y ∷ row') len e =
    let tails = repeat_last-injective (b ∷ row) (y ∷ row') (omega arith) (ground arith) in
    ground arith

AreHashes-repeat_last : (row : List Bytes) → AreHashes row → AreHashes (repeat_last row)
unfolding repeat_last
AreHashes-repeat_last [] h = h
AreHashes-repeat_last (a ∷ []) h = (h.0, (h.0, tt))
AreHashes-repeat_last (a ∷ b ∷ row) h = (h.0, AreHashes-repeat_last (b ∷ row) h.1)

length-repeat_last :
    (a : Bytes) (row : List Bytes) → length (repeat_last (a ∷ row)) ≡ suc (suc (length row))
unfolding repeat_last
length-repeat_last a [] = refl
length-repeat_last a (b ∷ row) = ap suc (length-repeat_last b row)

-- Two rows of one length, and the rows of even length made from them.
module _ (row row' even even' : List Bytes) (len : length row ≡ length row')
    (made : even_row row ≡ ok even) (made' : even_row row' ≡ ok even') where
  even_row-injective : even ≡ even' → row ≡ row'
  unfolding even_row
  even_row-injective e = ground (arith, repeat_last-injective row row' len)

AreHashes-even_row :
    (row even : List Bytes) → even_row row ≡ ok even → AreHashes row → AreHashes even
unfolding even_row
AreHashes-even_row row even made h = elim (Bool-cases (length row % 2 == 1)) [
  | inl odd ↦ elim (Bool-cases (leb 3 (length row) && ends_in_pair row)) [
    | inl pair ↦ ground arith
    | inr free ↦
        (let e : repeat_last row ≡ even = ok-injective (rw (odd, free) at made) in
          rw (← e) (AreHashes-repeat_last row h))
  ]
  | inr same ↦ (let e : row ≡ even = ok-injective (rw same at made) in rw (← e) h)
]

length-even_row :
    (a : Bytes) (row even : List Bytes)
    → even_row (a ∷ row) ≡ ok even
    → length even ≡ length (a ∷ row) + length (a ∷ row) % 2
unfolding even_row
length-even_row a row even made = ground (arith, length-repeat_last a row)

module _ (c : Platform) where
  pair_hash_binds :
      (a b x y : Bytes)
      → length a ≡ 32
      → length x ≡ 32
      → pair_hash c a b ≡ pair_hash c x y
      → ((a ≡ x) × (b ≡ y)) ⊎ Collision c
  unfolding pair_hash
  pair_hash_binds a b x y ha hx e = elim (Bytes-cases (a ++ b) (x ++ y)) [
    | inl same ↦ inl (append-injective a b x y (omega arith) same)
    | inr differ ↦ inr (a ++ b, x ++ y, differ, e)
  ]

  hash_pairs_bind :
      (row row' : List Bytes)
      → length row ≡ length row'
      → length row % 2 ≡ 0
      → AreHashes row
      → AreHashes row'
      → hash_pairs c row ≡ hash_pairs c row'
      → (row ≡ row') ⊎ Collision c
  unfolding hash_pairs
  hash_pairs_bind [] [] len even h h' e = inl refl
  hash_pairs_bind (a ∷ b ∷ row) (x ∷ y ∷ row') len even h h' e =
      elim (pair_hash_binds a b x y h.0 h'.0 (ground arith)) [
        | inl (p, q) ↦
            elim (hash_pairs_bind row row' (omega arith) (omega arith) h.1.1 h'.1.1
              (ground arith)) [ inl r ↦ inl (cc) | inr collision ↦ inr collision ]
        | inr collision ↦ inr collision
      ]
  hash_pairs_bind row row' len even h h' e = absurd (omega arith)

  length_pairs :
      (row row' : List Bytes)
      → length row ≡ length row'
      → length (hash_pairs c row) ≡ length (hash_pairs c row')
  unfolding hash_pairs
  length_pairs [] [] len = refl
  length_pairs (a ∷ []) (x ∷ []) len = refl
  length_pairs (a ∷ b ∷ row) (x ∷ y ∷ row') len = ap suc (length_pairs row row' (omega arith))
  length_pairs row row' len = absurd (omega arith)

  -- `hashlib` gives 32 bytes.
  module _ (size : (x : Bytes) → length (sha256d c x) ≡ 32) where
    AreHashes-hash_pairs : (row : List Bytes) → AreHashes (hash_pairs c row)
    unfolding hash_pairs pair_hash
    AreHashes-hash_pairs [] = tt
    AreHashes-hash_pairs (a ∷ []) = tt
    AreHashes-hash_pairs (a ∷ b ∷ row) = (size (a ++ b), AreHashes-hash_pairs row)

    root_loop_binds :
        (fuel : ℕ) (row row' : List Bytes) (root : Bytes)
        → length row ≡ length row'
        → AreHashes row
        → AreHashes row'
        → root_loop c fuel row ≡ ok root
        → root_loop c fuel row' ≡ ok root
        → (row ≡ row') ⊎ Collision c
    unfolding root_loop
    root_loop_binds fuel [] row' root len h h' e e' = cc
    root_loop_binds fuel (a ∷ row) [] root len h h' e e' = cc
    root_loop_binds fuel (a ∷ []) (x ∷ []) root len h h' e e' = inl (ground arith)
    root_loop_binds fuel (a ∷ []) (x ∷ y ∷ row') root len h h' e e' = absurd (omega arith)
    root_loop_binds fuel (a ∷ b ∷ row) (x ∷ []) root len h h' e e' = absurd (omega arith)
    root_loop_binds zero (a ∷ b ∷ row) (x ∷ y ∷ row') root len h h' e e' = cc
    root_loop_binds (suc fuel) (a ∷ b ∷ row) (x ∷ y ∷ row') root len h h' e e' =
        let (even, made, up) = >>=-eq-ok (even_row (a ∷ b ∷ row)) _ e in
        let (even', made', up') = >>=-eq-ok (even_row (x ∷ y ∷ row')) _ e' in
        let size = length-even_row a (b ∷ row) even made in
        let size' = length-even_row x (y ∷ row') even' made' in
        elim (root_loop_binds fuel (hash_pairs c even) (hash_pairs c even') root
          (length_pairs even even' (omega arith)) (AreHashes-hash_pairs even)
          (AreHashes-hash_pairs even') up up') [
            | inl same ↦
                elim (hash_pairs_bind even even' (omega arith) (omega arith)
                  (AreHashes-even_row (a ∷ b ∷ row) even made h)
                  (AreHashes-even_row (x ∷ y ∷ row') even' made' h') same) [
                    | inl evens ↦ inl (
                        even_row-injective (a ∷ b ∷ row) (x ∷ y ∷ row') even even' len made made'
                          evens)
                    | inr collision ↦ inr collision
                  ]
            | inr collision ↦ inr collision
          ]

    -- If SHA-256d gives 32 bytes, two lists of 32-byte ids that have the same length and the same
    -- root are equal, or a collision of SHA-256d is at hand.
    pub merkle_root-binds :
        (txids txids' : List Bytes) (root : Bytes)
        → length txids ≡ length txids'
        → AreHashes txids
        → AreHashes txids'
        → merkle_root c txids ≡ ok root
        → merkle_root c txids' ≡ ok root
        → (txids ≡ txids') ⊎ Collision c
    unfolding merkle_root
    merkle_root-binds txids txids' root len h h' e e' =
        root_loop_binds (length txids) txids txids' root len h h' e (rw (← len) at e')

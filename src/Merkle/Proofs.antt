-- ===== src/Merkle/Proofs.antt =====
-- Proofs of membership, and that the loops of the tree end.
use obsidion.Prelude.{
  ℕ, zero, suc, ◌+◌, ◌-◌, ◌/◌, ◌%◌, ◌≤◌, ◌<◌, ◌≡◌, refl, ap, Bool, true, false, ◌&&◌, List, [], ◌∷◌,
  Bytes, length, get_elem?, some, leb, ◌==◌, if◌then◌else◌, arith, Bool-cases, inl, inr, ◌⊎◌,
}
use obsidion.Prelude.Eq.{=?-refl, List_eq, ℕ_eq}
use obsidion.Prelude.Result.{ok, err, >>=-eq-ok, ok-injective}
use obsidion.Errors.{Try, value_error, duplicate_pair}
use obsidion.Crypto.{Platform}
use obsidion.Merkle.{
  ends_in_pair, repeat_last, even_row, pair_hash, hash_pairs, root_loop, merkle_root, sibling,
  proof_loop, merkle_proof, proof_of, climb, verify_proof,
}

get_elem?-repeat_last :
    (row : List Bytes) (position : ℕ) (txid : Bytes)
    → get_elem? row position ≡ some txid
    → get_elem? (repeat_last row) position ≡ some txid
unfolding repeat_last
get_elem?-repeat_last [] position txid h = h
get_elem?-repeat_last (a ∷ []) zero txid h = h
get_elem?-repeat_last (a ∷ []) (suc position) txid h = cc
get_elem?-repeat_last (a ∷ b ∷ row) zero txid h = h
get_elem?-repeat_last (a ∷ b ∷ row) (suc position) txid h =
    get_elem?-repeat_last (b ∷ row) position txid h

get_elem?-even_row :
    (row even : List Bytes) (position : ℕ) (txid : Bytes)
    → even_row row ≡ ok even
    → get_elem? row position ≡ some txid
    → get_elem? even position ≡ some txid
unfolding even_row
get_elem?-even_row row even position txid h found =
    ground (arith, get_elem?-repeat_last row position txid found)

length-repeat_last :
    (a : Bytes) (row : List Bytes) → length (repeat_last (a ∷ row)) ≡ suc (suc (length row))
unfolding repeat_last
length-repeat_last a [] = refl
length-repeat_last a (b ∷ row) = ap suc (length-repeat_last b row)

length-even_row :
    (a : Bytes) (row even : List Bytes)
    → even_row (a ∷ row) ≡ ok even
    → length even ≤ length row + 2
unfolding even_row
length-even_row a row even h = ground (arith, length-repeat_last a row)

-- Two entries further on, the sibling is two entries further on.
sibling-suc :
    (a b : Bytes) (row : List Bytes) (position : ℕ)
    → sibling (a ∷ b ∷ row) (suc (suc position)) ≡ sibling row position
unfolding sibling
sibling-suc a b row position = elim (Bool-cases (position % 2 == 1)) [
  | inl left ↦
      (let left' : (suc (suc position) % 2 == 1) ≡ true = ground arith in
        let at : suc (suc position) - 1 ≡ suc (suc (position - 1)) = ground arith in
        rw (left, left', at) refl)
  | inr right ↦
      (let right' : (suc (suc position) % 2 == 1) ≡ false = ground arith in
        let at : suc (suc position) + 1 ≡ suc (suc (position + 1)) = omega arith in
        rw (right, right', at) refl)
]

module _ (c : Platform) where
  length-hash_pairs : (row : List Bytes) → length (hash_pairs c row) ≡ length row / 2
  unfolding hash_pairs
  length-hash_pairs [] = omega arith
  length-hash_pairs (a ∷ []) = omega arith
  length-hash_pairs (a ∷ b ∷ row) = omega (arith, length-hash_pairs row)

  -- An entry and its sibling are the two sides of the entry above.
  get_elem?-hash_pairs :
      (row : List Bytes) (position : ℕ) (txid hash : Bytes) (is_left : Bool)
      → get_elem? row position ≡ some txid
      → sibling row position ≡ ok (hash, is_left)
      → get_elem? (hash_pairs c row) (position / 2)
        ≡ some (if is_left then pair_hash c hash txid else pair_hash c txid hash)
  unfolding hash_pairs sibling
  get_elem?-hash_pairs [] position txid hash is_left found step = cc
  get_elem?-hash_pairs (a ∷ []) zero txid hash is_left found step = ground arith
  get_elem?-hash_pairs (a ∷ []) (suc position) txid hash is_left found step = cc
  get_elem?-hash_pairs (a ∷ b ∷ row) zero txid hash is_left found step = ground arith
  get_elem?-hash_pairs (a ∷ b ∷ row) (suc zero) txid hash is_left found step = ground arith
  get_elem?-hash_pairs (a ∷ b ∷ row) (suc (suc position)) txid hash is_left found step =
      let half : suc (suc position) / 2 ≡ suc (position / 2) = omega arith in
      rw half (
        get_elem?-hash_pairs row position txid hash is_left found
          (rw (sibling-suc a b row position) at step))

  -- A path that the loop builds leads from its entry to the root that the loop computes.
  climb-proof_loop :
      (fuel : ℕ) (row : List Bytes) (position : ℕ) (txid root : Bytes) (path : List (Bytes × Bool))
      → get_elem? row position ≡ some txid
      → proof_loop c fuel row position ≡ ok path
      → root_loop c fuel row ≡ ok root
      → climb c txid path ≡ root
  unfolding climb proof_loop root_loop
  climb-proof_loop fuel [] position txid root path found hp hr = cc
  climb-proof_loop fuel (a ∷ []) zero txid root path found hp hr = ground arith
  climb-proof_loop fuel (a ∷ []) (suc position) txid root path found hp hr = cc
  climb-proof_loop zero (a ∷ b ∷ row) position txid root path found hp hr = cc
  climb-proof_loop (suc fuel) (a ∷ b ∷ row) position txid root path found hp hr =
      let (even, he, hp') = >>=-eq-ok (even_row (a ∷ b ∷ row)) _ hp in
      let (step, hs, hp'') = >>=-eq-ok (sibling even position) _ hp' in
      let (hash, is_left) = step in
      let (others, ho, hp3) =
        >>=-eq-ok (proof_loop c fuel (hash_pairs c even) (position / 2)) _ hp'' in
      let here = get_elem?-even_row (a ∷ b ∷ row) even position txid he found in
      rw (← ok-injective hp3) (
        climb-proof_loop fuel (hash_pairs c even) (position / 2) _ root others
          (get_elem?-hash_pairs even position txid hash is_left here hs) ho (rw he at hr))

  -- If `merkle_proof` gives a path for the entry at `index`, and `merkle_root` a root for the same
  -- list, then `verify_proof` accepts that entry with that path and that root.
  pub verify_proof-merkle_proof :
      (txids : List Bytes) (index : ℕ) (txid root : Bytes) (path : List (Bytes × Bool))
      → get_elem? txids index ≡ some txid
      → merkle_proof c txids index ≡ ok path
      → merkle_root c txids ≡ ok root
      → verify_proof c txid path root ≡ true
  unfolding merkle_proof proof_of merkle_root verify_proof
  verify_proof-merkle_proof [] index txid root path found hp hr = cc
  verify_proof-merkle_proof (a ∷ txids) index txid root path found hp hr =
      let built : proof_loop c (length (a ∷ txids)) (a ∷ txids) index ≡ ok path = ground arith in
      let e =
        climb-proof_loop (length (a ∷ txids)) (a ∷ txids) index txid root path found built hr in
      rw e (=?-refl root)

even_row_cases :
    (a b : Bytes) (row : List Bytes)
    → ((even : List Bytes) × (even_row (a ∷ b ∷ row) ≡ ok even)
        × (length even ≤ length row + 3)
        × (2 ≤ length even))
      ⊎ (even_row (a ∷ b ∷ row) ≡ err (value_error duplicate_pair))
unfolding even_row
even_row_cases a b row = elim (Bool-cases (length (a ∷ b ∷ row) % 2 == 1)) [
  | inl odd ↦ elim (Bool-cases (leb 3 (length (a ∷ b ∷ row)) && ends_in_pair (a ∷ b ∷ row))) [
    | inl pair ↦ inr (rw (odd, pair) refl)
    | inr free ↦ inl (
      repeat_last (a ∷ b ∷ row),
      rw (odd, free) refl,
      omega (arith, length-repeat_last a (b ∷ row)),
      omega (arith, length-repeat_last a (b ∷ row)),
    )
  ]
  | inr even ↦ inl (a ∷ b ∷ row, rw even refl, omega arith, omega arith)
]

module _ (c : Platform) where
  abbrev Ends : Try Bytes → Type 0
  Ends r = ((root : Bytes) × (r ≡ ok root)) ⊎ (r ≡ err (value_error duplicate_pair))

  -- Each round leaves fewer entries, so the loop does not run out of fuel.
  root_loop-Ends :
      (fuel : ℕ) (row : List Bytes)
      → 0 < length row
      → length row ≤ fuel
      → Ends (root_loop c fuel row)
  unfolding root_loop
  root_loop-Ends fuel [] p h = elim p [ ]
  root_loop-Ends fuel (a ∷ []) p h = inl (a, refl)
  root_loop-Ends zero (a ∷ b ∷ row) p h = absurd (omega arith)
  root_loop-Ends (suc fuel) (a ∷ b ∷ row) p h = elim (even_row_cases a b row) [
    | inl (even, e, most, least) ↦ rw e (
        root_loop-Ends fuel (hash_pairs c even) (omega (arith, length-hash_pairs c even))
          (omega (arith, length-hash_pairs c even)))
    | inr e ↦ inr (rw e refl)
  ]

  -- For a list of one id or more, `merkle_root` gives a root, or refuses the list because a row of
  -- odd length ends in a matching pair. There is no other outcome, so the loop always ends.
  pub merkle_root_ends :
      (txids : List Bytes)
      → 0 < length txids
      → ((root : Bytes) × (merkle_root c txids ≡ ok root))
        ⊎ (merkle_root c txids ≡ err (value_error duplicate_pair))
  unfolding merkle_root
  merkle_root_ends txids h = root_loop-Ends (length txids) txids h (omega arith)

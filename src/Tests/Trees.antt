-- ===== src/Tests/Trees.antt =====
-- Runs of the Merkle tree.
use obsidion.Prelude.{
  ◌≡◌, ◌⊎◌, refl, true, Bool, List, [], ◌∷◌, length, Bytes, replicate, ◌++◌, take, length-take,
  length-append, arith,
}
use obsidion.Prelude.Result.{ok, err}
use obsidion.Errors.{value_error, duplicate_pair}
use obsidion.Crypto.{sha256d}
use obsidion.Merkle.{
  merkle_root, merkle_proof, verify_proof, ends_in_pair, even_row, hash_pairs, proof_loop,
  repeat_last, root_loop, sibling,
}
use obsidion.Merkle.Proofs.{verify_proof-merkle_proof, merkle_root_ends}
use obsidion.Merkle.Binding.{Collision, merkle_root-binds}
use obsidion.Tests.Fixtures.{value, platform}

abbrev ids : List Bytes
ids = replicate 32 1 ∷ replicate 32 2 ∷ replicate 32 3 ∷ []

abbrev root : Bytes
unfolding merkle_root
root = value [] (merkle_root platform ids)

has_root : merkle_root platform ids ≡ ok root
unfolding merkle_root root root_loop even_row ends_in_pair hash_pairs repeat_last
has_root = refl

abbrev path : List (Bytes × Bool)
unfolding merkle_proof
path = value [] (merkle_proof platform ids 2)

has_path : merkle_proof platform ids 2 ≡ ok path
unfolding merkle_proof path proof_loop even_row ends_in_pair sibling repeat_last hash_pairs
has_path = refl

verify_proof-merkle_proof_example : verify_proof platform (replicate 32 3) path root ≡ true
verify_proof-merkle_proof_example =
    verify_proof-merkle_proof platform ids 2 (replicate 32 3) root path refl has_path has_root

merkle_root_ends_example :
    ((root : Bytes) × (merkle_root platform ids ≡ ok root))
    ⊎ (merkle_root platform ids ≡ err (value_error duplicate_pair))
merkle_root_ends_example = merkle_root_ends platform ids (omega arith)

platform_size : (x : Bytes) → length (sha256d platform x) ≡ 32
unfolding sha256d
platform_size x =
    let once = take 32 (x ++ replicate 32 0) in
    omega (arith, length-take 32 (once ++ replicate 32 0), length-append once (replicate 32 0))

abbrev other_ids : List Bytes
other_ids = replicate 32 1 ∷ replicate 32 4 ∷ replicate 32 3 ∷ []

other_has_root : merkle_root platform other_ids ≡ ok root
unfolding merkle_root root root_loop even_row ends_in_pair hash_pairs repeat_last sha256d
other_has_root = refl

merkle_root-binds_example : (ids ≡ other_ids) ⊎ Collision platform
merkle_root-binds_example =
    merkle_root-binds platform platform_size ids other_ids root refl (refl, (refl, (refl, tt)))
      (refl, (refl, (refl, tt))) has_root other_has_root

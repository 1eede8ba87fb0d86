-- ===== src/Merkle.antt =====
-- obsidion/merkle.py: the tree that binds a header to its transactions.
pub mod Proofs
pub mod Binding
use obsidion.Prelude.{
  ℕ, zero, suc, ◌+◌, ◌-◌, ◌/◌, ◌%◌, Bool, true, false, ◌&&◌, not, List, [], ◌∷◌, ◌++◌, Bytes,
  length, get_elem?, Option, none, some, ltb, leb, ◌==◌, if◌then◌else◌,
}
use obsidion.Prelude.Eq.{◌=?◌, List_eq, ℕ_eq}
use obsidion.Prelude.Result.{ok, err, ◌>>=◌, or_raise}
use obsidion.Errors.{Try, value_error, no_txids, duplicate_pair, index_error, out_of_fuel}
use obsidion.Crypto.{Platform, sha256d}

-- `row[-1] == row[-2]`, in a row of two and more.
unfoldable pub ends_in_pair : List Bytes → Bool
ends_in_pair [] = false
ends_in_pair (a ∷ []) = false
ends_in_pair (a ∷ b ∷ []) = b =? a
ends_in_pair (a ∷ b ∷ d ∷ row) = ends_in_pair (b ∷ d ∷ row)

-- `row.append(row[-1])`
unfoldable pub repeat_last : List Bytes → List Bytes
repeat_last [] = []
repeat_last (a ∷ []) = a ∷ a ∷ []
repeat_last (a ∷ b ∷ row) = a ∷ repeat_last (b ∷ row)

-- A row of odd length gets its last entry twice, unless it ends in a matching pair already.
unfoldable pub even_row : List Bytes → Try (List Bytes)
even_row row =
    if length row % 2 == 1
    then (if leb 3 (length row) && ends_in_pair row
        then err (value_error duplicate_pair)
        else ok (repeat_last row))
    else ok row

-- The sibling of the entry at `position`, in a row of even length.
unfoldable pub sibling : List Bytes → ℕ → Try (Bytes × Bool)
sibling row position =
    let is_left = position % 2 == 1 in
    do
      hash ← or_raise (get_elem? row (if is_left then position - 1 else position + 1)) index_error
      ok (hash, is_left)

module _ (c : Platform) where
  unfoldable pub pair_hash : Bytes → Bytes → Bytes
  pair_hash left right = sha256d c (left ++ right)

  -- The row above, for a row of even length.
  unfoldable pub hash_pairs : List Bytes → List Bytes
  unfolding pair_hash
  hash_pairs [] = []
  hash_pairs (a ∷ []) = []
  hash_pairs (a ∷ b ∷ row) = pair_hash a b ∷ hash_pairs row

  -- The `while len(row) > 1` loop. The number of
  -- entries is enough fuel, since each round halves the row.
  unfoldable pub root_loop : ℕ → List Bytes → Try Bytes
  root_loop fuel [] = err (value_error no_txids)
  root_loop fuel (a ∷ []) = ok a
  root_loop zero (a ∷ b ∷ row) = err out_of_fuel
  root_loop (suc fuel) (a ∷ b ∷ row) = do
    even ← even_row (a ∷ b ∷ row)
    root_loop fuel (hash_pairs even)

  unfoldable pub merkle_root : List Bytes → Try Bytes
  merkle_root txids = root_loop (length txids) txids

  unfoldable pub proof_loop : ℕ → List Bytes → ℕ → Try (List (Bytes × Bool))
  proof_loop fuel [] position = ok []
  proof_loop fuel (a ∷ []) position = ok []
  proof_loop zero (a ∷ b ∷ row) position = err out_of_fuel
  proof_loop (suc fuel) (a ∷ b ∷ row) position = do
    even ← even_row (a ∷ b ∷ row)
    step ← sibling even position
    path ← proof_loop fuel (hash_pairs even) (position / 2)
    ok (step ∷ path)

  -- `merkle_proof`; an index is not negative.
  unfoldable pub proof_of : List Bytes → ℕ → Try (List (Bytes × Bool))
  proof_of [] index = err (value_error no_txids)
  proof_of (a ∷ txids) index =
      if ltb index (length (a ∷ txids))
      then proof_loop (length (a ∷ txids)) (a ∷ txids) index
      else err index_error

  unfoldable pub merkle_proof : List Bytes → ℕ → Try (List (Bytes × Bool))
  unfolding proof_of
  merkle_proof = proof_of

  -- One step of the path upwards.
  unfoldable pub climb : Bytes → List (Bytes × Bool) → Bytes
  climb current [] = current
  climb current ((hash, is_left) ∷ path) =
      climb (if is_left then pair_hash hash current else pair_hash current hash) path

  unfoldable pub verify_proof : Bytes → List (Bytes × Bool) → Bytes → Bool
  verify_proof txid path root = climb txid path =? root

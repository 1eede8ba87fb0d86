-- ===== src/Tests/Walks.antt =====
-- Walks along a chain of two blocks.
use obsidion.Prelude.{
  ◌⊎◌, ◌≡◌, refl, sym, ap, true, false, List, [], ◌∷◌, Bytes, replicate, some, none, inl, inr,
  arith, All, Bool-cases,
}
use obsidion.Prelude.Eq.{◌=?◌, ℕ_eq, List_eq}
use obsidion.Prelude.Result.{ok}
use obsidion.Table.{lookup}
use obsidion.Storage.{valid, IndexEntry, ChainDb, empty_db, get_index}
use obsidion.ChainState.Reorg.{ancestor_at_height, branch_loop}
use obsidion.ChainState.Reorg.Walks.{IsLinked, Descends, ancestor_at_height_lem, branch_loop_lem}

abbrev root_hash : Bytes
root_hash = replicate 32 1

abbrev root : IndexEntry
root = record {
  hash = root_hash;
  prev_hash = replicate 32 0;
  height = 0;
  cumwork = 2;
  timestamp = 900;
  bits = 0x207FFFFF;
  active = true;
  status = valid;
}

abbrev leaf_hash : Bytes
leaf_hash = replicate 32 2

abbrev leaf : IndexEntry
leaf = record root { hash = leaf_hash; prev_hash = root_hash; height = 1; active = false }

abbrev two : ChainDb
two = record empty_db { block_index = (root_hash, root) ∷ (leaf_hash, leaf) ∷ [] }

rows_of : (hash : Bytes) (e : IndexEntry) → get_index hash two ≡ some e → (root ≡ e) ⊎ (leaf ≡ e)
unfolding get_index lookup
rows_of hash e found = elim (Bool-cases (root_hash =? hash)) [
  | inl first ↦ inl (let h : some root ≡ some e = rw first at found in cc)
  | inr other ↦ elim (Bool-cases (leaf_hash =? hash)) [
    | inl second ↦ inr (let h : some leaf ≡ some e = rw (other, second) at found in cc)
    | inr neither ↦ let clash : none ≡ some e = rw (other, neither) at found in cc
  ]
]

two-IsLinked : IsLinked two
unfolding get_index lookup
two-IsLinked = record {
  has_parent = λ hash e n found above. elim (rows_of hash e found) [
    | inl same ↦ absurd (omega (arith, above, ap (λ z. z.height) same))
    | inr same ↦ (
      root,
      ap (λ z. get_index z.prev_hash two) (sym same),
      omega (arith, above, ap (λ z. z.height) same),
    )
  ];
  is_rooted = λ hash e found lowest. elim (rows_of hash e found) [
    | inl same ↦ ap (λ z. z.active) (sym same)
    | inr same ↦ absurd (omega (arith, lowest, ap (λ z. z.height) same))
  ];
}

leaf_found : get_index leaf_hash two ≡ some leaf
unfolding get_index lookup
leaf_found = refl

ancestor_at_height_lem_example :
    (a : IndexEntry) × (ancestor_at_height leaf 0 two ≡ ok a) × (a.height ≡ 0) × Descends two leaf a
ancestor_at_height_lem_example =
    ancestor_at_height_lem two two-IsLinked leaf_hash leaf 0 leaf_found (omega arith)

branch_loop_lem_example :
    (branch : List IndexEntry) × (fork : IndexEntry) × (branch_loop 2 leaf [] two
      ≡ ok (branch, fork))
    × (fork.active ≡ true)
    × Descends two leaf fork
    × All (λ b. b.active ≡ false) branch
branch_loop_lem_example =
    branch_loop_lem two two-IsLinked 2 leaf_hash leaf [] leaf_found (omega arith) tt

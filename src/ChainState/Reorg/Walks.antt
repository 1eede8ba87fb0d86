-- ===== src/ChainState/Reorg/Walks.antt =====
-- The walks along the parent links end where they should, on an index whose links go down by one.
use obsidion.Prelude.{
  ℕ, zero, suc, ◌≡◌, ◌≤◌, ◌<◌, refl, sym, ◌∙◌, ap, true, false, List, ◌∷◌, Bytes, some, inl, inr,
  arith, All, Bool-cases, ltb, if◌then◌else◌,
}
use obsidion.Prelude.Eq.{ℕ_eq, List_eq}
use obsidion.Prelude.Result.{ok, ◌>>=◌, or_raise}
use obsidion.Errors.{assertion_error}
use obsidion.Storage.{IndexEntry, ChainDb, get_index}
use obsidion.ChainState.Reorg.{ancestor_loop, ancestor_at_height, branch_loop}

-- The second block is the first, or an ancestor of it.
pub data Descends (db : ChainDb) : IndexEntry → IndexEntry → Type 0 where
  itself : {e : IndexEntry} → Descends db e e
  from_parent :
      {e parent a : IndexEntry}
      → get_index e.prev_hash db ≡ some parent
      → Descends db parent a
      → Descends db e a

-- A block above genesis has its parent in the index, one lower; genesis is active.
pub record IsLinked (db : ChainDb) : Type 0 where
  pub has_parent :
      (hash : Bytes) (e : IndexEntry) (n : ℕ)
      → get_index hash db ≡ some e
      → e.height ≡ suc n
      → (parent : IndexEntry) × (get_index e.prev_hash db ≡ some parent) × (parent.height ≡ n)
  pub is_rooted :
      (hash : Bytes) (e : IndexEntry) → get_index hash db ≡ some e → e.height ≡ 0 → e.active ≡ true

ltb-false-le : (m n : ℕ) → ltb m n ≡ false → n ≤ m
ltb-false-le m n h = ground arith

branch_loop-active :
    (fuel : ℕ) (e : IndexEntry) (branch : List IndexEntry) (db : ChainDb)
    → e.active ≡ true
    → branch_loop (suc fuel) e branch db ≡ ok (branch, e)
unfolding branch_loop
branch_loop-active fuel e branch db active =
    ap
      (λ z.
        if z
        then ok (branch, e)
        else (or_raise (get_index e.prev_hash db) assertion_error >>= λ parent.
            branch_loop fuel parent (e ∷ branch) db))
      active

branch_loop-parent :
    (fuel : ℕ) (e parent : IndexEntry) (branch : List IndexEntry) (db : ChainDb)
    → e.active ≡ false
    → get_index e.prev_hash db ≡ some parent
    → branch_loop (suc fuel) e branch db ≡ branch_loop fuel parent (e ∷ branch) db
unfolding branch_loop
branch_loop-parent fuel e parent branch db inactive at_parent =
    ap
      (λ z.
        if z
        then ok (branch, e)
        else (or_raise (get_index e.prev_hash db) assertion_error >>= λ cursor.
            branch_loop fuel cursor (e ∷ branch) db))
      inactive
    ∙ ap (λ z. or_raise z assertion_error >>= λ cursor. branch_loop fuel cursor (e ∷ branch) db)
        at_parent

module _ (db : ChainDb) (linked : IsLinked db) where
  ancestor_loop_lem :
      (fuel : ℕ) (hash : Bytes) (e : IndexEntry) (height : ℕ)
      → get_index hash db ≡ some e
      → height ≤ e.height
      → e.height < fuel
      → (a : IndexEntry) × (ancestor_loop fuel e height db ≡ ok a)
        × (a.height ≡ height)
        × Descends db e a
  unfolding ancestor_loop
  ancestor_loop_lem zero hash e height found low enough = absurd (omega (arith, enough))
  ancestor_loop_lem (suc fuel) hash e height found low enough =
      elim (Bool-cases (ltb height e.height)) [
        | inl higher ↦
            (let (n, above) = predecessor e.height height higher in
              let (parent, at_parent, one_less) = linked.has_parent hash e n found above in
              let (a, reached, exact, descends) =
                ancestor_loop_lem fuel e.prev_hash parent height at_parent
                  (least height n parent.height e.height higher above one_less)
                  (omega (arith, enough, above, one_less)) in
              (a, rw (higher, at_parent) reached, exact, from_parent at_parent descends))
        | inr there ↦
            let same = ltb-false-le height e.height there in
            (e, rw there refl, omega (arith, low, same), itself)
      ]
    where
      predecessor : (k m : ℕ) → ltb m k ≡ true → (n : ℕ) × (k ≡ suc n)
      predecessor zero m h = absurd (ground arith)
      predecessor (suc k) m h = (k, refl)

      least : (m n k j : ℕ) → ltb m j ≡ true → j ≡ suc n → k ≡ n → m ≤ k
      least m n k j h above one_less = ground arith

  -- If every block above genesis has its parent in the index, one lower, then from a block in the
  -- index `_ancestor_at_height` returns an ancestor at exactly the given height, up to its own.
  pub ancestor_at_height_lem :
      (hash : Bytes) (e : IndexEntry) (height : ℕ)
      → get_index hash db ≡ some e
      → height ≤ e.height
      → (a : IndexEntry) × (ancestor_at_height e height db ≡ ok a)
        × (a.height ≡ height)
        × Descends db e a
  unfolding ancestor_at_height
  ancestor_at_height_lem hash e height found low =
      ancestor_loop_lem (suc e.height) hash e height found low (omega arith)

  -- If every block above genesis has its parent in the index, one lower, and genesis is active, then
  -- from a block in the index the search for the fork returns an active ancestor, and the blocks
  -- that it puts above it are not active.
  pub branch_loop_lem :
      (fuel : ℕ) (hash : Bytes) (e : IndexEntry) (branch : List IndexEntry)
      → get_index hash db ≡ some e
      → e.height < fuel
      → All (λ b. b.active ≡ false) branch
      → (branch' : List IndexEntry) × (fork : IndexEntry) × (branch_loop fuel e branch db
          ≡ ok (branch', fork))
        × (fork.active ≡ true)
        × Descends db e fork
        × All (λ b. b.active ≡ false) branch'
  branch_loop_lem zero hash e branch found enough idle = absurd (omega (arith, enough))
  branch_loop_lem (suc fuel) hash e branch found enough idle = elim (Bool-cases e.active) [
    | inl active ↦ (branch, e, branch_loop-active fuel e branch db active, active, itself, idle)
    | inr inactive ↦
        (let (n, above) = not_root e.height (λ root.
            let clash : true ≡ false = sym (linked.is_rooted hash e found root) ∙ inactive in cc) in
          let (parent, at_parent, one_less) = linked.has_parent hash e n found above in
          let (branch', fork, reached, active, descends, idle') =
            branch_loop_lem fuel e.prev_hash parent (e ∷ branch) at_parent
              (omega (arith, enough, above, one_less)) (inactive, idle) in
          (
            branch',
            fork,
            branch_loop-parent fuel e parent branch db inactive at_parent ∙ reached,
            active,
            from_parent at_parent descends,
            idle',
          ))
  ]
    where
      not_root : (k : ℕ) → (k ≡ 0 → ⊥) → (n : ℕ) × (k ≡ suc n)
      not_root zero h = absurd (h refl)
      not_root (suc k) h = (k, refl)

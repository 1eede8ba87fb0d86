-- ===== src/Mempool/Eviction.antt =====
-- What is left after evictions.
use obsidion.Prelude.{
  ℕ, zero, suc, ◌≡◌, sym, ◌∙◌, subst, List, [], ◌∷◌, Bytes, none, some, inl, inr, All, Option-cases,
}
use obsidion.Prelude.Eq.{ℕ_eq, List_eq}
use obsidion.Prelude.Result.{ok, ◌>>=◌, >>=-eq-ok, ok-injective}
use obsidion.Errors.{Try}
use obsidion.Crypto.{Platform}
use obsidion.Table.{lookup}
use obsidion.Transaction.Model.{OutPoint, OutPoint_eq, TxOut}
use obsidion.Mempool.{Mempool, remove, evict_children, evict, evict_all}
use obsidion.Mempool.WellFormed.{WellFormed, Within, remove-WellFormed, remove-Within, remove-gone}

pub absent-Within :
    (pool pool' : Mempool) (id : Bytes)
    → Within pool pool'
    → lookup id pool.entries ≡ none
    → lookup id pool'.entries ≡ none
absent-Within pool pool' id within absent = elim (Option-cases (lookup id pool'.entries)) [
  | inl free ↦ free
  | inr (entry, found) ↦ let clash : none ≡ some entry = sym absent ∙ within id entry found in cc
]

module _ (c : Platform) where
  -- Well formed, and no larger.
  abbrev pub Shrinks : Mempool → Mempool → Type 0
  Shrinks pool pool' = WellFormed c pool' × Within pool pool'

  pub Shrinks-trans : (p q r : Mempool) → Shrinks p q → Shrinks q r → Shrinks p r
  Shrinks-trans p q r (_, f) (wf, g) = (wf, λ id entry h. f id entry (g id entry h))

  evict_children-Shrinks :
      (evict_child : Bytes → Mempool → Try Mempool)
      → ((id : Bytes) (pool pool' : Mempool)
          → WellFormed c pool
          → evict_child id pool ≡ ok pool'
          → Shrinks pool pool')
      → (id : Bytes) (index : ℕ) (outputs : List TxOut) (pool pool' : Mempool) → WellFormed c pool
      → evict_children evict_child id index outputs pool ≡ ok pool'
      → Shrinks pool pool'
  unfolding evict_children
  evict_children-Shrinks evict_child shrinks id index [] pool pool' wf h =
      subst (λ z. Shrinks pool z) (ok-injective h) (wf, λ k e found. found)
  evict_children-Shrinks evict_child shrinks id index (o ∷ outputs) pool pool' wf h =
      let key : OutPoint = record { txid = id; index = index } in
      elim (Option-cases (lookup key pool.spends)) [
        | inl free ↦
            evict_children-Shrinks evict_child shrinks id (suc index) outputs pool pool' wf
              (rw (evict_children, free) at h)
        | inr (child, found) ↦
            let h' : (evict_child child pool >>= λ z.
            evict_children evict_child id (suc index) outputs z)
                ≡ ok pool' =
              rw (evict_children, found) at h in
            let (pool1, evicted, h1) = >>=-eq-ok (evict_child child pool) _ h' in
            let one = shrinks child pool pool1 wf evicted in
            Shrinks-trans pool pool1 pool' one (
              evict_children-Shrinks evict_child shrinks id (suc index) outputs pool1 pool' one.0
                h1)
      ]

  pub evict-Shrinks :
      (depth : ℕ) (id : Bytes) (pool pool' : Mempool)
      → WellFormed c pool
      → evict depth id pool ≡ ok pool'
      → Shrinks pool pool' × (lookup id pool'.entries ≡ none)
  unfolding evict
  evict-Shrinks zero id pool pool' wf h = cc
  evict-Shrinks (suc depth) id pool pool' wf h = elim (Option-cases (lookup id pool.entries)) [
    | inl free ↦
        let same : pool ≡ pool' = ok-injective (rw (evict, free) at h) in
        subst (λ z. Shrinks pool z × (lookup id z.entries ≡ none)) same
          ((wf, λ k e found. found), free)
    | inr (entry, found) ↦
        let h' : (evict_children (evict depth) id 0 entry.tx.outputs pool >>= λ z. ok (remove id z))
            ≡ ok pool' =
          rw (evict, found) at h in
        let (pool1, cleared, h1) =
          >>=-eq-ok (evict_children (evict depth) id 0 entry.tx.outputs pool) _ h' in
        let one =
          evict_children-Shrinks (evict depth) (λ k p q w e. (evict-Shrinks depth k p q w e).0) id 0
            entry.tx.outputs pool pool1 wf cleared in
        subst (λ z. Shrinks pool z × (lookup id z.entries ≡ none)) (ok-injective h1)
          (
            Shrinks-trans pool pool1 (remove id pool1) one
                (remove-WellFormed c id pool1 one.0, remove-Within c id pool1),
            remove-gone c id pool1,
          )
  ]

  pub evict_all-Shrinks :
      (depth : ℕ) (ids : List Bytes) (pool pool' : Mempool)
      → WellFormed c pool
      → evict_all depth ids pool ≡ ok pool'
      → Shrinks pool pool' × All (λ id. lookup id pool'.entries ≡ none) ids
  unfolding evict_all
  evict_all-Shrinks depth [] pool pool' wf h =
      subst (λ z. Shrinks pool z × Unit) (ok-injective h) ((wf, λ k e found. found), tt)
  evict_all-Shrinks depth (id ∷ ids) pool pool' wf h =
      let (pool1, evicted, h1) = >>=-eq-ok (evict depth id pool) _ h in
      let (one, gone) = evict-Shrinks depth id pool pool1 wf evicted in
      let (more, rest) = evict_all-Shrinks depth ids pool1 pool' one.0 h1 in
      (Shrinks-trans pool pool1 pool' one more, (absent-Within pool1 pool' id more.1 gone, rest))

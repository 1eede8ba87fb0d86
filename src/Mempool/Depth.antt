-- ===== src/Mempool/Depth.antt =====
-- `_evict_with_descendants` returns if the interpreter allows as many calls as there are generations.
use obsidion.Prelude.{
  ℕ, zero, suc, ◌≡◌, ◌<◌, refl, List, [], ◌∷◌, Bytes, none, some, inl, inr, arith, Option-cases,
}
use obsidion.Prelude.Eq.{ℕ_eq, List_eq}
use obsidion.Prelude.Result.{ok}
use obsidion.Errors.{Try}
use obsidion.Crypto.{Platform}
use obsidion.Table.{lookup}
use obsidion.Transaction.Model.{OutPoint_eq, TxOut}
use obsidion.Mempool.{Mempool, remove, evict_children, evict}
use obsidion.Mempool.WellFormed.{WellFormed}
use obsidion.Mempool.Eviction.{Shrinks, evict-Shrinks}

-- A pooled transaction that spends an output of another ranks below it.
abbrev pub IsRanked : (Bytes → ℕ) → Mempool → Type 0
IsRanked rank pool =
    (id child : Bytes) (index : ℕ)
    → lookup (record { txid = id; index = index }) pool.spends ≡ some child
    → rank child < rank id

module _ (c : Platform) (rank : Bytes → ℕ) where
  -- A smaller pool has no other claims.
  IsRanked-Shrinks :
      (pool pool' : Mempool)
      → WellFormed c pool
      → Shrinks c pool pool'
      → IsRanked rank pool
      → IsRanked rank pool'
  IsRanked-Shrinks pool pool' wf (wf', within) ranked id child index taken =
      let (entry, found, mine) = wf'.claimed (record { txid = id; index = index }) child taken in
      ranked id child index (
        wf.claims child entry (record { txid = id; index = index }) (within child entry found) mine)

  evict_children_returns :
      (evict_child : Bytes → Mempool → Try Mempool) (id : Bytes)
      → ((child : Bytes) (pool : Mempool)
          → WellFormed c pool
          → IsRanked rank pool
          → rank child < rank id
          → (pool' : Mempool) × (evict_child child pool ≡ ok pool') × Shrinks c pool pool')
      → (index : ℕ) (outputs : List TxOut) (pool : Mempool) → WellFormed c pool
      → IsRanked rank pool
      → (pool' : Mempool) × (evict_children evict_child id index outputs pool ≡ ok pool')
  unfolding evict_children
  evict_children_returns evict_child id returns index [] pool wf ranked = (pool, refl)
  evict_children_returns evict_child id returns index (o ∷ outputs) pool wf ranked =
      elim (Option-cases (lookup (record { txid = id; index = index }) pool.spends)) [
        | inl free ↦
            let (pool', done) =
              evict_children_returns evict_child id returns (suc index) outputs pool wf ranked in
            (pool', rw (evict_children, free) done)
        | inr (child, taken) ↦
            let (pool1, evicted, shrunk) =
              returns child pool wf ranked (ranked id child index taken) in
            let (pool', done) =
              evict_children_returns evict_child id returns (suc index) outputs pool1 shrunk.0
                (IsRanked-Shrinks pool pool1 wf shrunk ranked) in
            (pool', rw (evict_children, taken, evicted) done)
      ]

  -- If the pool is well formed and every pooled transaction ranks below those whose outputs it
  -- spends, then evicting a transaction returns wherever the interpreter allows more calls than its
  -- rank; only entries are dropped, it among them, and the pool stays well formed.
  pub evict_returns :
      (depth : ℕ) (id : Bytes) (pool : Mempool)
      → WellFormed c pool
      → IsRanked rank pool
      → rank id < depth
      → (pool' : Mempool) × (evict depth id pool ≡ ok pool')
        × Shrinks c pool pool'
        × (lookup id pool'.entries ≡ none)
  unfolding evict
  evict_returns zero id pool wf ranked low = absurd (omega (arith, low))
  evict_returns (suc depth) id pool wf ranked low = elim (Option-cases (lookup id pool.entries)) [
    | inl free ↦ (pool, rw (evict, free) refl, (wf, λ k e found. found), free)
    | inr (entry, found) ↦
        let (pool1, cleared) =
          evict_children_returns (evict depth) id
            (λ child q w r below.
              let (q', done, shrunk, _) =
                evict_returns depth child q w r (omega (arith, low, below)) in
              (q', done, shrunk))
            0 entry.tx.outputs pool wf ranked in
        let whole : evict (suc depth) id pool ≡ ok (remove id pool1) =
          rw (evict, found, cleared) refl in
        let (shrunk, gone) = evict-Shrinks c (suc depth) id pool (remove id pool1) wf whole in
        (remove id pool1, whole, shrunk, gone)
  ]

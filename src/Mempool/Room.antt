-- ===== src/Mempool/Room.antt =====
-- `_make_room_for` makes room.
use obsidion.Prelude.{
  ℕ, ◌≡◌, refl, sym, ◌∙◌, ap, subst, true, List, [], ◌∷◌, ◌++◌, map, Bytes, none, some, inl, inr,
  arith, All, Bool-cases, Option-cases, append_assoc, append-nil,
}
use obsidion.Prelude.Int.{ℤ, pos, ◌+ℤ◌, ◌-ℤ◌, ◌≤ℤ◌, ltb_ℤ, int_laws, parts, +ℤ_assoc}
use obsidion.Prelude.Eq.{ℕ_eq, List_eq}
use obsidion.Prelude.Result.{ok, ◌>>=◌, >>=-eq-ok, ok-injective}
use obsidion.Params.{NetworkParams}
use obsidion.Crypto.{Platform}
use obsidion.Table.{lookup}
use obsidion.Table.Laws.{IsKeyed}
use obsidion.Table.Sums.{total}
use obsidion.Transaction.Model.{OutPoint_eq}
use obsidion.Transaction.Signing.{txid}
use obsidion.Mempool.{
  MempoolEntry, Mempool, sort_by, values, fee_rate, fits, choose_doomed, cheapest_first, evict_all,
  make_room_for,
}
use obsidion.Mempool.WellFormed.{size_of, WellFormed, Within, some_same}
use obsidion.Mempool.Eviction.{Shrinks, evict_all-Shrinks}
use obsidion.Mempool.Budget.{
  Entries, AreIn, AreIn-itself, AreIn-Same, left_and_gone, sort_by-Same, candidates_lem, row_order,
}

module _ (c : Platform) (p : NetworkParams) (max_size : ℕ) (depth : ℕ) where
  abbrev AreNamed : Entries → Type 0
  AreNamed rows = All (λ r. txid c r.1.tx ≡ ok r.0) rows

  stop :
      (incoming : MempoolEntry) (pool : Mempool) (rows : Entries) (freed : ℤ)
      (doomed ids : List Bytes)
      → doomed ≡ ids
      → fits c p max_size depth freed incoming.size pool ≡ true
      → (taken : Entries) × (rest : Entries) × (rows ≡ taken ++ rest)
        × (ids ≡ doomed ++ map (λ r. r.0) taken)
        × (fits c p max_size depth (freed +ℤ total size_of taken) incoming.size pool ≡ true)
  unfolding total
  stop incoming pool rows freed doomed ids same room =
      let unmoved : freed ≡ freed +ℤ pos 0 = omega int_laws in
      (
        [],
        rows,
        refl,
        sym same ∙ sym (append-nil doomed),
        subst (λ z. fits c p max_size depth z incoming.size pool ≡ true) unmoved room,
      )

  -- The loop takes a first part of the candidates, and with it gone there is room.
  choose_doomed_lem :
      (incoming : MempoolEntry) (pool : Mempool) (rows : Entries) (freed : ℤ)
      (doomed ids : List Bytes)
      → AreNamed rows
      → choose_doomed c p max_size depth incoming pool (map (λ r. r.1) rows) freed doomed
        ≡ ok (some ids)
      → (taken : Entries) × (rest : Entries) × (rows ≡ taken ++ rest)
        × (ids ≡ doomed ++ map (λ r. r.0) taken)
        × (fits c p max_size depth (freed +ℤ total size_of taken) incoming.size pool ≡ true)
  unfolding choose_doomed total
  choose_doomed_lem incoming pool [] freed doomed ids named h =
      elim (Bool-cases (fits c p max_size depth freed incoming.size pool)) [
        | inl room ↦
            stop incoming pool [] freed doomed ids (some_same (ok-injective (rw room at h))) room
        | inr full ↦ let clash = rw full at h in cc
      ]
  choose_doomed_lem incoming pool ((id, entry) ∷ rows) freed doomed ids (name, named) h =
      elim (Bool-cases (fits c p max_size depth freed incoming.size pool)) [
        | inl room ↦
            stop incoming pool ((id, entry) ∷ rows) freed doomed ids
              (some_same (ok-injective (rw room at h))) room
        | inr full ↦ elim (Bool-cases (ltb_ℤ (fee_rate entry) (fee_rate incoming))) [
          | inl cheaper ↦
              let (id', name', h1) = >>=-eq-ok (txid c entry.tx) _ (rw (full, cheaper) at h) in
              let same : id' ≡ id = ok-injective (sym name' ∙ name) in
              let h2 : choose_doomed c p max_size depth incoming pool (map (λ r. r.1) rows)
                    (freed +ℤ pos entry.size) (doomed ++ id ∷ [])
                  ≡ ok (some ids) =
                subst
                  (λ z.
                    choose_doomed c p max_size depth incoming pool (map (λ r. r.1) rows)
                      (freed +ℤ pos entry.size) (doomed ++ z ∷ [])
                    ≡ ok (some ids))
                  same h1 in
              let (taken, rest, split, chosen, room) =
                choose_doomed_lem incoming pool rows (freed +ℤ pos entry.size) (doomed ++ id ∷ [])
                  ids named h2 in
              (
                (id, entry) ∷ taken,
                rest,
                ap (λ z. (id, entry) ∷ z) split,
                chosen ∙ append_assoc doomed (id ∷ []) (map (λ r. r.0) taken),
                subst (λ z. fits c p max_size depth z incoming.size pool ≡ true)
                    (+ℤ_assoc freed (pos entry.size) (total size_of taken)) room,
              )
          | inr dearer ↦ let clash = rw (full, dearer) at h in cc
        ]
      ]

  named_rows :
      (pool : Mempool) (rows : Entries)
      → WellFormed c pool
      → AreIn pool.entries rows
      → AreNamed rows
  named_rows pool [] wf h = tt
  named_rows pool (r ∷ rows) wf (found, h) = (wf.named r.0 r.1 found, named_rows pool rows wf h)

  -- `AreIn` of a smaller pool.
  pub in_larger :
      (pool pool' : Mempool) (rows : Entries)
      → Within pool pool'
      → AreIn pool'.entries rows
      → AreIn pool.entries rows
  in_larger pool pool' [] within h = tt
  in_larger pool pool' (r ∷ rows) within (found, h) =
      (within r.0 r.1 found, in_larger pool pool' rows within h)

  pub fits_lem :
      (freed : ℤ) (size : ℕ) (pool : Mempool)
      → fits c p max_size depth freed size pool ≡ true
      → pool.total_size -ℤ freed +ℤ pos size ≤ℤ pos max_size
  fits_lem freed size pool h = ground arith

  -- Room for a size.
  abbrev pub HasRoom : ℕ → Mempool → Type 0
  HasRoom size pool = pool.total_size +ℤ pos size ≤ℤ pos max_size

  pub make_room_for_lem :
      (incoming : MempoolEntry) (pool pool' : Mempool)
      → WellFormed c pool
      → make_room_for c p max_size depth incoming pool ≡ ok (some pool')
      → Shrinks c pool pool' × HasRoom incoming.size pool'
  unfolding make_room_for
  make_room_for_lem incoming pool pool' wf h =
      let sorted_rows = sort_by row_order pool.entries in
      let (distinct, same) = sort_by-Same pool.entries wf.keyed in
      let within : AreIn pool.entries sorted_rows =
        AreIn-Same sorted_rows pool.entries sorted_rows same (AreIn-itself sorted_rows distinct) in
      let (choice, chosen, h1) =
        >>=-eq-ok
          (choose_doomed c p max_size depth incoming pool
            (sort_by cheapest_first (values pool.entries)) (pos 0) [])
          _ h in
      elim (Option-cases choice) [
        | inl nothing ↦ let clash = rw nothing at h1 in cc
        | inr (doomed, some_doomed) ↦
            let h2 : (evict_all depth doomed pool >>= λ z. ok (some z)) ≡ ok (some pool') =
              rw some_doomed at h1 in
            let (pool1, evicted, h3) = >>=-eq-ok (evict_all depth doomed pool) _ h2 in
            let last : pool1 ≡ pool' = some_same (ok-injective h3) in
            let picked : choose_doomed c p max_size depth incoming pool (map (λ r. r.1) sorted_rows)
                  (pos 0) []
                ≡ ok (some doomed) =
              subst
                (λ z.
                  choose_doomed c p max_size depth incoming pool z (pos 0) [] ≡ ok (some doomed))
                (candidates_lem pool.entries) (chosen ∙ ap ok some_doomed) in
            let (taken, rest, split, ids, room) =
              choose_doomed_lem incoming pool sorted_rows (pos 0) [] doomed
                (named_rows pool sorted_rows wf within) picked in
            let (shrunk, absent) = evict_all-Shrinks c depth doomed pool pool1 wf evicted in
            let small =
              left_and_gone pool.entries taken rest pool1.entries wf.keyed
                (subst IsKeyed split distinct) (subst (AreIn pool.entries) split within)
                shrunk.0.keyed
                (in_larger pool pool1 pool1.entries shrunk.1
                  (AreIn-itself pool1.entries shrunk.0.keyed))
                (subst (λ z. All (λ k. lookup k pool1.entries ≡ none) z) ids absent) in
            let free = fits_lem (pos 0 +ℤ total size_of taken) incoming.size pool room in
            let now = shrunk.0.sized in
            let before = wf.sized in
            subst (λ z. Shrinks c pool z × HasRoom incoming.size z) last
              (shrunk, omega (int_laws, small, free, parts now, parts before))
      ]

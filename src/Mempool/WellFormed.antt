-- ===== src/Mempool/WellFormed.antt =====
-- What holds of the pool's three fields, and that `_remove`, `_evict_with_descendants` and the last
-- lines of `accept` keep it.
use obsidion.Prelude.{
  ◌≡◌, ◌≢◌, refl, sym, ◌∙◌, ap, true, false, Bytes, Option, none, some, inl, inr, Bool-cases,
  Option-cases,
}
use obsidion.Prelude.Int.{ℤ, pos, ◌-ℤ◌, int_laws, parts}
use obsidion.Prelude.Eq.{◌=?◌, ℕ_eq, List_eq, =?-eq, =?-ne, =?-refl}
use obsidion.Prelude.Result.{ok}
use obsidion.Crypto.{Platform}
use obsidion.Table.{Table, lookup, delete}
use obsidion.Table.Laws.{IsKeyed, lookup-put, lookup-delete, put-IsKeyed, delete-IsKeyed}
use obsidion.Table.Sums.{total, total-put_new, total-delete}
use obsidion.Transaction.Model.{OutPoint, OutPoint_eq}
use obsidion.Transaction.Signing.{txid}
use obsidion.Mempool.{MempoolEntry, Mempool, release, remove, insert_entry}
use obsidion.Mempool.Claims.{has_input, lookup-release, release-other, lookup-claim}

abbrev pub size_of : Bytes → MempoolEntry → ℤ
size_of id entry = pos entry.size

-- Entries stand under their own ids, the size is theirs, and the claims are exactly their inputs.
pub record WellFormed (c : Platform) (pool : Mempool) : Type 0 where
  pub keyed : IsKeyed pool.entries
  pub sized : pool.total_size ≡ total size_of pool.entries
  pub named :
      (id : Bytes) (entry : MempoolEntry)
      → lookup id pool.entries ≡ some entry
      → txid c entry.tx ≡ ok id
  pub claimed :
      (o : OutPoint) (id : Bytes)
      → lookup o pool.spends ≡ some id
      → (entry : MempoolEntry) × (lookup id pool.entries ≡ some entry)
        × (has_input o entry.tx.inputs ≡ true)
  pub claims :
      (id : Bytes) (entry : MempoolEntry) (o : OutPoint)
      → lookup id pool.entries ≡ some entry
      → has_input o entry.tx.inputs ≡ true
      → lookup o pool.spends ≡ some id

-- Entries only go.
abbrev pub Within : Mempool → Mempool → Type 0
Within pool pool' =
    (id : Bytes) (entry : MempoolEntry)
    → lookup id pool'.entries ≡ some entry
    → lookup id pool.entries ≡ some entry

pub some_same : {A : Type 0} {a b : A} → ◌≡◌ {A = Option A} (some a) (some b) → a ≡ b
some_same h = cc

-- A row that is left after a deletion.
left_over :
    (id k : Bytes) (entries : Table Bytes MempoolEntry) (entry : MempoolEntry)
    → lookup k (delete id entries) ≡ some entry
    → (id ≢ k) × (lookup k entries ≡ some entry)
left_over id k entries entry h = elim (Bool-cases (id =? k)) [
  | inl same ↦
      let clash : none ≡ some entry = sym (lookup-delete id k entries ∙ (rw same refl)) ∙ h in cc
  | inr apart ↦ (
    λ same. let clash : true ≡ false = sym (rw same (=?-refl k)) ∙ apart in cc,
    sym (lookup-delete id k entries ∙ (rw apart refl)) ∙ h,
  )
]

module _ (c : Platform) where
  removed-WellFormed :
      (id : Bytes) (pool : Mempool) (entry : MempoolEntry)
      → lookup id pool.entries ≡ some entry
      → WellFormed c pool
      → WellFormed c (record {
        entries = delete id pool.entries;
        total_size = pool.total_size -ℤ pos entry.size;
        spends = release id entry.tx.inputs pool.spends;
      })
  removed-WellFormed id pool entry found wf = record {
    keyed = delete-IsKeyed id pool.entries wf.keyed;
    sized =
        (let gone = total-delete size_of id entry pool.entries wf.keyed found in
          omega (int_laws, parts gone, parts wf.sized));
    named = λ k e h. wf.named k e ((left_over id k pool.entries e h).1);
    claimed = λ o k h.
        let (taken, other) = lookup-release id entry.tx.inputs pool.spends o k h in
        let (e, there, mine) = wf.claimed o k taken in
        let apart : (id =? k) ≡ false = =?-ne id k λ same.
          let e1 : some entry ≡ some e = sym found ∙ (rw same there) in
          other (ap (λ z. has_input o z.tx.inputs) (some_same e1) ∙ mine) (sym same) in
        (e, lookup-delete id k pool.entries ∙ (rw apart there), mine);
    claims = λ k e o h mine.
        let (apart, there) = left_over id k pool.entries e h in
        release-other id entry.tx.inputs pool.spends o k (λ same. apart (sym same))
          (wf.claims k e o there mine);
  }

  pub remove-WellFormed :
      (id : Bytes) (pool : Mempool) → WellFormed c pool → WellFormed c (remove id pool)
  unfolding remove
  remove-WellFormed id pool wf = elim (Option-cases (lookup id pool.entries)) [
    | inl free ↦ rw (remove, free) wf
    | inr (entry, found) ↦ rw (remove, found) (removed-WellFormed id pool entry found wf)
  ]

  pub remove-Within : (id : Bytes) (pool : Mempool) → Within pool (remove id pool)
  unfolding remove
  remove-Within id pool k entry = elim (Option-cases (lookup id pool.entries)) [
    | inl free ↦ rw (remove, free) (λ h. h)
    | inr (e, found) ↦ rw (remove, found) (λ h. (left_over id k pool.entries entry h).1)
  ]

  pub remove-gone : (id : Bytes) (pool : Mempool) → lookup id ((remove id pool).entries) ≡ none
  unfolding remove
  remove-gone id pool = elim (Option-cases (lookup id pool.entries)) [
    | inl free ↦ rw (remove, free) free
    | inr (e, found) ↦
        rw (remove, found) (lookup-delete id id pool.entries ∙ (rw (=?-refl id) refl))
  ]

  -- A new entry, whose inputs nobody claims.
  pub insert_entry-WellFormed :
      (id : Bytes) (entry : MempoolEntry) (pool : Mempool)
      → lookup id pool.entries ≡ none
      → txid c entry.tx ≡ ok id
      → ((o : OutPoint) → has_input o entry.tx.inputs ≡ true → lookup o pool.spends ≡ none)
      → WellFormed c pool
      → WellFormed c (insert_entry id entry pool)
  unfolding insert_entry
  insert_entry-WellFormed id entry pool free named unclaimed wf = record {
    keyed = put-IsKeyed id entry pool.entries wf.keyed;
    sized =
        (let more = total-put_new size_of id entry pool.entries free in
          omega (int_laws, parts more, parts wf.sized));
    named = λ k e h. elim (Bool-cases (id =? k)) [
      | inl same ↦
          let e1 : some entry ≡ some e =
            sym (lookup-put id k entry pool.entries ∙ (rw same refl)) ∙ h in
          ap (λ z. txid c z.tx) (sym (some_same e1)) ∙ named ∙ ap ok (=?-eq id k same)
      | inr apart ↦ wf.named k e (sym (lookup-put id k entry pool.entries ∙ (rw apart refl)) ∙ h)
    ];
    claimed = λ o k h. elim (Bool-cases (has_input o entry.tx.inputs)) [
      | inl mine ↦
          let e1 : some id ≡ some k =
            sym (lookup-claim id entry.tx.inputs pool.spends o ∙ (rw mine refl)) ∙ h in
          (entry, lookup-put id k entry pool.entries ∙ (rw (some_same e1, =?-refl k) refl), mine)
      | inr other ↦
          let taken : lookup o pool.spends ≡ some k =
            sym (lookup-claim id entry.tx.inputs pool.spends o ∙ (rw other refl)) ∙ h in
          let (e, there, theirs) = wf.claimed o k taken in
          let apart : (id =? k) ≡ false =
            =?-ne id k λ same. let clash : none ≡ some e = sym free ∙ (rw same there) in cc in
          (e, lookup-put id k entry pool.entries ∙ (rw apart there), theirs)
    ];
    claims = λ k e o h theirs. elim (Bool-cases (id =? k)) [
      | inl same ↦
          let e1 : some entry ≡ some e =
            sym (lookup-put id k entry pool.entries ∙ (rw same refl)) ∙ h in
          let mine : has_input o entry.tx.inputs ≡ true =
            ap (λ z. has_input o z.tx.inputs) (some_same e1) ∙ theirs in
          lookup-claim id entry.tx.inputs pool.spends o ∙ (rw mine (ap some (=?-eq id k same)))
      | inr apart ↦
          let there : lookup k pool.entries ≡ some e =
            sym (lookup-put id k entry pool.entries ∙ (rw apart refl)) ∙ h in
          let taken : lookup o pool.spends ≡ some k = wf.claims k e o there theirs in
          elim (Bool-cases (has_input o entry.tx.inputs)) [
            | inl mine ↦ let clash : none ≡ some k = sym (unclaimed o mine) ∙ taken in cc
            | inr other ↦ lookup-claim id entry.tx.inputs pool.spends o ∙ (rw other taken)
          ]
    ];
  }

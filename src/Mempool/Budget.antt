-- ===== src/Mempool/Budget.antt =====
-- How much is freed by what `_make_room_for` evicts.
use obsidion.Prelude.{
  ◌≡◌, refl, sym, ◌∙◌, ap, subst, Bool, true, false, [], ◌∷◌, ◌++◌, map, Bytes, none, some, inl,
  inr, All, Bool-cases, if◌then◌else◌,
}
use obsidion.Prelude.Int.{pos, ◌+ℤ◌, ◌≤ℤ◌, int_laws, parts}
use obsidion.Prelude.Eq.{◌=?◌, ℕ_eq, List_eq, =?-eq, =?-ne, =?-refl}
use obsidion.Table.{Table, lookup, delete}
use obsidion.Table.Laws.{IsKeyed, lookup-delete, delete-IsKeyed}
use obsidion.Table.Sums.{total, total-delete}
use obsidion.Mempool.{MempoolEntry, insert_by, sort_by, values, cheapest_first}
use obsidion.Mempool.WellFormed.{size_of}

abbrev pub Entries : Type 0
Entries = Table Bytes MempoolEntry

-- The rows are in the table.
abbrev pub AreIn : Entries → Entries → Type 0
AreIn t rows = All (λ r. lookup r.0 t ≡ some r.1) rows

pub total_positive : (t : Entries) → pos 0 ≤ℤ total size_of t
unfolding total
total_positive [] = omega int_laws
total_positive ((k, v) ∷ t) = omega (int_laws, total_positive t)

AreIn-delete :
    (k : Bytes) (t rows : Entries) → lookup k rows ≡ none → AreIn t rows → AreIn (delete k t) rows
unfolding lookup
AreIn-delete k t [] free h = tt
AreIn-delete k t ((j, v) ∷ rows) free (found, h) = elim (Bool-cases (j =? k)) [
  | inl same ↦ let clash : some v ≡ none = rw same at free in cc
  | inr other ↦
      let apart : (k =? j) ≡ false =
        =?-ne k j λ e. let clash : true ≡ false = sym (rw e (=?-refl j)) ∙ other in cc in
      (lookup-delete k j t ∙ (rw apart found), AreIn-delete k t rows (rw other at free) h)
]

-- Different rows of a table take up no more than the table.
pub AreIn-total :
    (t rows : Entries)
    → IsKeyed t
    → IsKeyed rows
    → AreIn t rows
    → total size_of rows ≤ℤ total size_of t
unfolding total
AreIn-total t [] keyed distinct h = total_positive t
AreIn-total t ((k, v) ∷ rows) keyed (free, distinct) (found, h) =
    let rest =
      AreIn-total (delete k t) rows (delete-IsKeyed k t keyed) distinct
        (AreIn-delete k t rows free h) in
    let whole = total-delete size_of k v t keyed found in omega (int_laws, rest, parts whole)

-- The candidates with their ids: sorting does not change what the table answers.
abbrev pub row_order : Bytes × MempoolEntry → Bytes × MempoolEntry → Bool
row_order a b = cheapest_first a.1 b.1

insert_by-lookup :
    (x : Bytes × MempoolEntry) (ys : Entries) (k : Bytes)
    → lookup x.0 ys ≡ none
    → lookup k (insert_by row_order x ys) ≡ lookup k (x ∷ ys)
unfolding insert_by lookup
insert_by-lookup x [] k free = refl
insert_by-lookup (j, v) ((i, w) ∷ ys) k free = elim (Bool-cases (cheapest_first v w)) [
  | inl first ↦ rw first refl
  | inr later ↦ elim (Bool-cases (i =? j)) [
    | inl same ↦ let clash : some w ≡ none = rw same at free in cc
    | inr apart ↦
        let rest = insert_by-lookup (j, v) ys k (rw apart at free) in
        elim (Bool-cases (i =? k)) [
          | inl e ↦
              let other : (j =? k) ≡ false = =?-ne j k λ s.
                let clash : true ≡ false =
                  sym (=?-refl k ∙ refl) ∙ (rw (=?-eq i k e, s) at apart) in
                cc in
              rw (later, e, other) refl
          | inr e ↦ rw (later, e) rest
        ]
  ]
]

insert_by-IsKeyed :
    (x : Bytes × MempoolEntry) (ys : Entries)
    → lookup x.0 ys ≡ none
    → IsKeyed ys
    → IsKeyed (insert_by row_order x ys)
unfolding insert_by lookup
insert_by-IsKeyed x [] free keyed = (refl, tt)
insert_by-IsKeyed (j, v) ((i, w) ∷ ys) free (above, keyed) =
    elim (Bool-cases (cheapest_first v w)) [
      | inl first ↦ rw first (free, (above, keyed))
      | inr later ↦ elim (Bool-cases (i =? j)) [
        | inl same ↦ let clash : some w ≡ none = rw same at free in cc
        | inr apart ↦
            let free' : lookup j ys ≡ none = rw apart at free in
            let other : (j =? i) ≡ false =
              =?-ne j i λ s. let clash : true ≡ false = sym (rw s (=?-refl i)) ∙ apart in cc in
            rw later (
              insert_by-lookup (j, v) ys i free' ∙ (rw (other, above) refl),
              insert_by-IsKeyed (j, v) ys free' keyed,
            )
      ]
    ]

pub sort_by-Same :
    (t : Entries)
    → IsKeyed t
    → IsKeyed (sort_by row_order t) × ((k : Bytes) → lookup k (sort_by row_order t) ≡ lookup k t)
unfolding sort_by lookup
sort_by-Same [] keyed = (tt, λ k. refl)
sort_by-Same ((j, v) ∷ t) (free, keyed) =
    let (keyed', same) = sort_by-Same t keyed in
    let free' : lookup j (sort_by row_order t) ≡ none = same j ∙ free in
    (
      insert_by-IsKeyed (j, v) (sort_by row_order t) free' keyed',
      λ k.
          insert_by-lookup (j, v) (sort_by row_order t) k free'
          ∙ ap (λ z. if j =? k then some v else z) (same k),
    )

insert_by-map :
    (x : Bytes × MempoolEntry) (ys : Entries)
    → insert_by cheapest_first x.1 (map (λ r. r.1) ys) ≡ map (λ r. r.1) (insert_by row_order x ys)
unfolding insert_by
insert_by-map x [] = refl
insert_by-map x (y ∷ ys) = elim (Bool-cases (cheapest_first x.1 y.1)) [
  | inl e ↦ rw e refl
  | inr e ↦ rw e (ap (λ z. y.1 ∷ z) (insert_by-map x ys))
]

-- The candidates are the entries of the sorted rows.
pub candidates_lem :
    (t : Entries) → sort_by cheapest_first (values t) ≡ map (λ r. r.1) (sort_by row_order t)
unfolding sort_by values
candidates_lem [] = refl
candidates_lem (x ∷ t) =
    ap (insert_by cheapest_first x.1) (candidates_lem t) ∙ insert_by-map x (sort_by row_order t)

-- `total` of rows put together.
total-append : (xs ys : Entries) → total size_of (xs ++ ys) ≡ total size_of xs +ℤ total size_of ys
unfolding total
total-append [] ys = omega int_laws
total-append ((k, v) ∷ xs) ys = omega (int_laws, parts (total-append xs ys))

lookup-append_none :
    (k : Bytes) (xs ys : Entries)
    → lookup k xs ≡ none
    → lookup k ys ≡ none
    → lookup k (xs ++ ys) ≡ none
unfolding lookup
lookup-append_none k [] ys h h' = h'
lookup-append_none k ((j, v) ∷ xs) ys h h' = elim (Bool-cases (j =? k)) [
  | inl e ↦ let clash : some v ≡ none = rw e at h in cc
  | inr e ↦ rw e (lookup-append_none k xs ys (rw e at h) h')
]

first_part : (k : Bytes) (xs rest : Entries) → lookup k (xs ++ rest) ≡ none → lookup k xs ≡ none
unfolding lookup
first_part k [] rest h = refl
first_part k ((j, w) ∷ xs) rest h = elim (Bool-cases (j =? k)) [
  | inl e ↦ let clash : some w ≡ none = rw e at h in cc
  | inr e ↦ rw e (first_part k xs rest (rw e at h))
]

-- A first part of different rows, and rows under none of its keys.
IsKeyed-append :
    (xs rest ys : Entries)
    → IsKeyed (xs ++ rest)
    → IsKeyed ys
    → All (λ k. lookup k ys ≡ none) (map (λ r. r.0) xs)
    → IsKeyed (xs ++ ys)
unfolding lookup
IsKeyed-append [] rest ys h keyed absent = keyed
IsKeyed-append ((k, v) ∷ xs) rest ys (free, h) keyed (gone, absent) = (
  lookup-append_none k xs ys (first_part k xs rest free) gone,
  IsKeyed-append xs rest ys h keyed absent,
)

AreIn-append : (t xs ys : Entries) → AreIn t xs → AreIn t ys → AreIn t (xs ++ ys)
AreIn-append t [] ys hs hs' = hs'
AreIn-append t (x ∷ xs) ys (h, hs) hs' = (h, AreIn-append t xs ys hs hs')

AreIn-first : (t xs rest : Entries) → AreIn t (xs ++ rest) → AreIn t xs
AreIn-first t [] rest hs = tt
AreIn-first t (x ∷ xs) rest (h, hs) = (h, AreIn-first t xs rest hs)

-- What is left of a table after some of its rows have gone.
pub left_and_gone :
    (t taken rest t' : Entries)
    → IsKeyed t
    → IsKeyed (taken ++ rest)
    → AreIn t (taken ++ rest)
    → IsKeyed t'
    → AreIn t t'
    → All (λ k. lookup k t' ≡ none) (map (λ r. r.0) taken)
    → total size_of taken +ℤ total size_of t' ≤ℤ total size_of t
left_and_gone t taken rest t' keyed distinct within keyed' within' absent =
    let small =
      AreIn-total t (taken ++ t') keyed (IsKeyed-append taken rest t' distinct keyed' absent)
        (AreIn-append t taken t' (AreIn-first t taken rest within) within') in
    subst (λ z. z ≤ℤ total size_of t) (total-append taken t') small

-- Every row of a table is in it.
pub AreIn-itself : (t : Entries) → IsKeyed t → AreIn t t
unfolding lookup
AreIn-itself [] keyed = tt
AreIn-itself ((k, v) ∷ t) (free, keyed) =
    (rw (=?-refl k) refl, under k v t t free (AreIn-itself t keyed))
  where
    under :
        (k : Bytes) (v : MempoolEntry) (t rows : Entries)
        → lookup k t ≡ none
        → AreIn t rows
        → AreIn ((k, v) ∷ t) rows
    under k v t [] free h = tt
    under k v t ((j, w) ∷ rows) free (found, h) = elim (Bool-cases (k =? j)) [
      | inl e ↦ let clash : none ≡ some w = sym free ∙ (rw (=?-eq k j e) found) in cc
      | inr e ↦ (unfold lookup in rw e found, under k v t rows free h)
    ]

pub AreIn-Same :
    (t t' rows : Entries) → ((k : Bytes) → lookup k t ≡ lookup k t') → AreIn t rows → AreIn t' rows
AreIn-Same t t' [] same h = tt
AreIn-Same t t' (r ∷ rows) same (found, h) = (sym (same r.0) ∙ found, AreIn-Same t t' rows same h)

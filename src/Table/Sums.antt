-- ===== src/Table/Sums.antt =====
-- A sum over the rows of a table, under each change.
use obsidion.Prelude.{◌≡◌, refl, [], ◌∷◌, none, some, arith, Bool-cases, inl, inr, ap, ◌∙◌}
use obsidion.Prelude.Int.{ℤ, pos, ◌+ℤ◌, +ℤ_assoc, parts, int_laws}
use obsidion.Prelude.Eq.{Eq, ◌=?◌, =?-eq}
use obsidion.Table.{Table, lookup, put, delete, update}
use obsidion.Table.Laws.{IsKeyed}

module _ {K V : Type 0} ⦃e : Eq K⦄ (f : K → V → ℤ) where
  unfoldable pub total : Table K V → ℤ
  total [] = pos 0
  total ((k, v) ∷ t) = f k v +ℤ total t

  pub total-put_new :
      (k : K) (v : V) (t : Table K V) → lookup k t ≡ none → total (put k v t) ≡ total t +ℤ f k v
  unfolding put lookup total
  total-put_new k v [] h = omega int_laws
  total-put_new k v ((j, w) ∷ t) h = grind (int_laws, total-put_new k v t)

  delete-absent : (k : K) (t : Table K V) → lookup k t ≡ none → delete k t ≡ t
  unfolding delete lookup
  delete-absent k [] h = refl
  delete-absent k ((j, w) ∷ t) h = ground (arith, delete-absent k t)

  pub total-delete :
      (k : K) (v : V) (t : Table K V)
      → IsKeyed t
      → lookup k t ≡ some v
      → total (delete k t) +ℤ f k v ≡ total t
  unfolding delete lookup total
  total-delete k v [] keyed h = cc
  total-delete k v ((j, w) ∷ t) keyed h = elim (Bool-cases (j =? k)) [
    | inl same ↦
        (let key : j ≡ k = =?-eq j k same in
          let value : w ≡ v = ground arith in
          let gone = delete-absent k t (rw key at keyed.0) in
          rw (same, gone, key, value) (omega int_laws))
    | inr other ↦
        (let rest = total-delete k v t keyed.1 (rw other at h) in
          rw other (+ℤ_assoc (f j w) (total (delete k t)) (f k v) ∙ ap (λ z. f j w +ℤ z) rest))
  ]

  update-absent : (k : K) (g : V → V) (t : Table K V) → lookup k t ≡ none → update k g t ≡ t
  unfolding update lookup
  update-absent k g [] h = refl
  update-absent k g ((j, w) ∷ t) h = ground (arith, update-absent k g t)

  pub total-update :
      (k : K) (g : V → V) (v : V) (t : Table K V)
      → IsKeyed t
      → lookup k t ≡ some v
      → total (update k g t) +ℤ f k v ≡ total t +ℤ f k (g v)
  unfolding update lookup total
  total-update k g v [] keyed h = cc
  total-update k g v ((j, w) ∷ t) keyed h = elim (Bool-cases (j =? k)) [
    | inl same ↦
        (let key : j ≡ k = =?-eq j k same in
          let value : w ≡ v = ground arith in
          let gone = update-absent k g t (rw key at keyed.0) in
          rw (same, gone, key, value) (omega int_laws))
    | inr other ↦
        (let rest = total-update k g v t keyed.1 (rw other at h) in
          rw other (omega (int_laws, parts rest)))
  ]

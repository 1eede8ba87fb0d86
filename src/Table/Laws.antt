-- ===== src/Table/Laws.antt =====
-- What a key maps to after each change.
use obsidion.Prelude.{◌≡◌, refl, [], ◌∷◌, none, some, if◌then◌else◌, arith}
use mathlib.Core.Option
use obsidion.Prelude.Eq.{Eq, ◌=?◌}
use obsidion.Table.{Table, lookup, put, insert, delete, update}

module _ {K V : Type 0} ⦃e : Eq K⦄ where
  pub lookup-put :
      (k j : K) (v : V) (t : Table K V)
      → lookup j (put k v t) ≡ (if k =? j then some v else lookup j t)
  unfolding lookup put
  lookup-put k j v [] = refl
  lookup-put k j v ((i, w) ∷ t) =
      ground (arith, e.beq_iff k j, e.beq_iff i k, e.beq_iff i j, lookup-put k j v t)

  pub lookup-delete :
      (k j : K) (t : Table K V) → lookup j (delete k t) ≡ (if k =? j then none else lookup j t)
  unfolding lookup delete
  lookup-delete k j [] = ground arith
  lookup-delete k j ((i, w) ∷ t) =
      ground (arith, e.beq_iff k j, e.beq_iff i k, e.beq_iff i j, lookup-delete k j t)

  pub lookup-insert :
      (k j : K) (v : V) (t t' : Table K V)
      → insert k v t ≡ some t'
      → (lookup k t ≡ none) × (lookup j t' ≡ (if k =? j then some v else lookup j t))
  unfolding insert
  lookup-insert k j v t t' h = ground (arith, lookup-put k j v t)

  pub lookup-update :
      (k j : K) (f : V → V) (t : Table K V)
      → lookup j (update k f t) ≡ (if k =? j then Option.map f (lookup j t) else lookup j t)
  unfolding lookup update
  lookup-update k j f [] = ground arith
  lookup-update k j f ((i, w) ∷ t) =
      ground (arith, e.beq_iff k j, e.beq_iff i k, e.beq_iff i j, lookup-update k j f t)

  -- Each key has one row.
  abbrev pub IsKeyed : Table K V → Type 0
  IsKeyed [] = Unit
  IsKeyed ((k, v) ∷ t) = (lookup k t ≡ none) × IsKeyed t

  pub put-IsKeyed : (k : K) (v : V) (t : Table K V) → IsKeyed t → IsKeyed (put k v t)
  unfolding put
  put-IsKeyed k v [] h = (unfold lookup in refl, tt)
  put-IsKeyed k v ((j, w) ∷ t) h =
      ground (arith, put-IsKeyed k v t h.1, lookup-put k j v t, e.beq_iff k j, e.beq_iff j k)

  pub delete-IsKeyed : (k : K) (t : Table K V) → IsKeyed t → IsKeyed (delete k t)
  unfolding delete
  delete-IsKeyed k [] h = tt
  delete-IsKeyed k ((j, w) ∷ t) h = ground (arith, delete-IsKeyed k t h.1, lookup-delete k j t)

  pub update-IsKeyed : (k : K) (f : V → V) (t : Table K V) → IsKeyed t → IsKeyed (update k f t)
  unfolding update
  update-IsKeyed k f [] h = tt
  update-IsKeyed k f ((j, w) ∷ t) h =
      ground (arith, update-IsKeyed k f t h.1, lookup-update k j f t)

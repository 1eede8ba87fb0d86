-- ===== src/Table.antt =====
-- A database table, or a Python dict, with one row for each key, in order of insertion. This is the
-- behaviour of SQLite and of `dict` that the program relies on: `INSERT`, `INSERT OR REPLACE`,
-- `UPDATE`, `DELETE` and `SELECT` by the primary key.
pub mod Laws
pub mod Sums
use obsidion.Prelude.{List, [], ◌∷◌, Option, none, some, if◌then◌else◌}
use obsidion.Prelude.Eq.{Eq, ◌=?◌}

abbrev pub Table : Type 0 → Type 0 → Type 0
Table K V = List (K × V)

module _ {K V : Type 0} ⦃e : Eq K⦄ where
  unfoldable pub lookup : K → Table K V → Option V
  lookup k [] = none
  lookup k ((j, v) ∷ t) = if j =? k then some v else lookup k t

  -- `INSERT OR REPLACE`, `d[k] = v`
  unfoldable pub put : K → V → Table K V → Table K V
  put k v [] = (k, v) ∷ []
  put k v ((j, w) ∷ t) = if j =? k then (k, v) ∷ t else (j, w) ∷ put k v t

  -- `INSERT`: `none` is an `IntegrityError`, the key is taken.
  unfoldable pub insert : K → V → Table K V → Option (Table K V)
  insert k v t = elim (lookup k t) [ none ↦ some (put k v t) | some old ↦ none ]

  -- `DELETE`, `del d[k]`, `d.pop(k, None)`
  unfoldable pub delete : K → Table K V → Table K V
  delete k [] = []
  delete k ((j, w) ∷ t) = let rest = delete k t in if j =? k then rest else (j, w) ∷ rest

  -- `UPDATE ... SET ... WHERE key = k`
  unfoldable pub update : K → (V → V) → Table K V → Table K V
  update k f [] = []
  update k f ((j, w) ∷ t) = (if j =? k then (j, f w) else (j, w)) ∷ update k f t

-- ===== src/ChainState/Restore.antt =====
-- Putting spent outputs back: `restore` on tables that answer alike.
pub mod Made
pub mod Inverse
pub mod RoundTrip
use obsidion.Prelude.{
  ℕ, ◌≡◌, ◌≢◌, refl, List, [], ◌∷◌, ◌++◌, Option, some, none, sym, ◌∙◌, ap, Bool-cases,
  Option-cases, inl, inr, true, false, if◌then◌else◌, arith,
}
use obsidion.Prelude.Eq.{Eq, ◌=?◌, =?-refl, =?-eq, =?-ne}
use obsidion.Prelude.Result.{ok, err, ◌>>=◌, >>=-eq-ok, ok-injective, or_raise, or_raise-eq-ok}
use obsidion.Table.{lookup, put, insert, delete}
use obsidion.Table.Laws.{lookup-put, lookup-delete, lookup-insert}
use obsidion.Transaction.Model.{OutPoint, OutPoint_eq}
use obsidion.Storage.{UtxoEntry, Utxos, add_utxo, delete_utxo, get_utxo}
use obsidion.ChainState.Undo.{UndoEntry}
use obsidion.ChainState.Connect.{restore}

-- Two tables with the same answers.
abbrev pub Same : Utxos → Utxos → Type 0
Same t t' = (o : OutPoint) → lookup o t ≡ lookup o t'

-- `INSERT` of a free key.
pub add_utxo_free :
    (o : OutPoint) (u : UtxoEntry) (t : Utxos) → lookup o t ≡ none → add_utxo o u t ≡ ok (put o u t)
unfolding add_utxo insert
add_utxo_free o u t free = rw (add_utxo, insert, free) refl

pub add_utxo_lem :
    (o : OutPoint) (u : UtxoEntry) (t t' : Utxos)
    → add_utxo o u t ≡ ok t'
    → (lookup o t ≡ none) × ((k : OutPoint) → lookup k t' ≡ lookup k (put o u t))
unfolding add_utxo
add_utxo_lem o u t t' h =
    let inserted = or_raise-eq-ok _ _ h in
    (
      (lookup-insert o o u t t' inserted).0,
      λ k. (lookup-insert o k u t t' inserted).1 ∙ sym (lookup-put o k u t),
    )

pub put-Same :
    (o : OutPoint) (u : UtxoEntry) (t t' : Utxos) → Same t t' → Same (put o u t) (put o u t')
put-Same o u t t' same k =
    lookup-put o k u t ∙ ap (λ z. if o =? k then some u else z) (same k) ∙ sym (lookup-put o k u t')

-- `restore` does not see the order of the rows.
pub restore-Same :
    (entries : List UndoEntry) (t t' r : Utxos)
    → Same t t'
    → restore entries t ≡ ok r
    → (r' : Utxos) × (restore entries t' ≡ ok r') × Same r r'
unfolding restore
restore-Same [] t t' r same h = (t', refl, λ o. sym (ap (lookup o) (ok-injective h)) ∙ same o)
restore-Same (u ∷ entries) t t' r same h =
    let (t1, added, h1) = >>=-eq-ok (add_utxo u.outpoint u.entry t) _ h in
    let (free, rows) = add_utxo_lem u.outpoint u.entry t t1 added in
    let added' = add_utxo_free u.outpoint u.entry t' (sym (same u.outpoint) ∙ free) in
    let (r', restored, alike) =
      restore-Same entries t1 (put u.outpoint u.entry t') r
        (λ o. rows o ∙ put-Same u.outpoint u.entry t t' same o) h1 in
    (r', rw added' restored, alike)

-- Nothing that is there goes.
pub restore-keeps :
    (entries : List UndoEntry) (t r : Utxos) (o : OutPoint) (u : UtxoEntry)
    → restore entries t ≡ ok r
    → lookup o t ≡ some u
    → lookup o r ≡ some u
unfolding restore
restore-keeps [] t r o u h found = ap (lookup o) (sym (ok-injective h)) ∙ found
restore-keeps (e ∷ entries) t r o u h found =
    let (t1, added, h1) = >>=-eq-ok (add_utxo e.outpoint e.entry t) _ h in
    let (free, rows) = add_utxo_lem e.outpoint e.entry t t1 added in
    let other : (e.outpoint =? o) ≡ false =
      =?-ne e.outpoint o (λ same. let clash : none ≡ some u = sym free ∙ (rw same found) in cc) in
    restore-keeps entries t1 r o u h1
      (rows o ∙ lookup-put e.outpoint o e.entry t ∙ (rw other found))

-- A spent row and another new one.
delete-put :
    (o j : OutPoint) (w : UtxoEntry) (t t1 : Utxos)
    → (j =? o) ≡ false
    → ((k : OutPoint) → lookup k t1 ≡ lookup k (put j w t))
    → Same (delete o t1) (put j w (delete o t))
delete-put o j w t t1 other rows k = elim (Bool-cases (o =? k)) [
  | inl e ↦
      let apart : (j =? k) ≡ false = rw (← =?-eq o k e) other in
      lookup-delete o k t1
      ∙ (rw (e, lookup-put j k w (delete o t), apart, lookup-delete o k t, e) refl)
  | inr e ↦
      lookup-delete o k t1
      ∙ (rw (e, rows k, lookup-put j k w t, lookup-put j k w (delete o t), lookup-delete o k t, e)
          refl)
]

-- A row that is spent and put back last.
pub restore_spent :
    (entries : List UndoEntry) (t r : Utxos) (o : OutPoint) (u : UtxoEntry)
    → lookup o t ≡ some u
    → restore entries t ≡ ok r
    → (r' : Utxos) × (restore (entries ++ record { outpoint = o; entry = u } ∷ []) (delete_utxo o t)
        ≡ ok r')
      × Same r r'
unfolding restore delete_utxo
restore_spent [] t r o u found h =
    let free : lookup o (delete o t) ≡ none = lookup-delete o o t ∙ (rw (=?-refl o) refl) in
    (
      put o u (delete o t),
      rw (add_utxo_free o u (delete o t) free) refl,
      λ k. ap (lookup k) (sym (ok-injective h)) ∙ sym (back k),
    )
  where
    back : (k : OutPoint) → lookup k (put o u (delete o t)) ≡ lookup k t
    back k = elim (Bool-cases (o =? k)) [
      | inl e ↦
          lookup-put o k u (delete o t) ∙ (rw e (sym found)) ∙ ap (λ z. lookup z t) (=?-eq o k e)
      | inr e ↦ lookup-put o k u (delete o t) ∙ (rw e (lookup-delete o k t ∙ (rw e refl)))
    ]
restore_spent (e ∷ entries) t r o u found h =
    let (t1, added, h1) = >>=-eq-ok (add_utxo e.outpoint e.entry t) _ h in
    let (free, rows) = add_utxo_lem e.outpoint e.entry t t1 added in
    let apart : e.outpoint ≢ o =
      λ same. let clash : none ≡ some u = sym free ∙ (rw same found) in cc in
    let other : (e.outpoint =? o) ≡ false = =?-ne e.outpoint o apart in
    let other' : (o =? e.outpoint) ≡ false = =?-ne o e.outpoint (λ same. apart (sym same)) in
    let found1 : lookup o t1 ≡ some u =
      rows o ∙ lookup-put e.outpoint o e.entry t ∙ (rw other found) in
    let (r1, restored, alike) = restore_spent entries t1 r o u found1 h1 in
    let free' : lookup e.outpoint (delete o t) ≡ none =
      lookup-delete o e.outpoint t ∙ (rw other' free) in
    let (r2, restored', alike') =
      restore-Same (entries ++ record { outpoint = o; entry = u } ∷ []) (delete o t1)
        (put e.outpoint e.entry (delete o t)) r1 (delete-put o e.outpoint e.entry t t1 other rows)
        restored in
    (
      r2,
      rw (add_utxo_free e.outpoint e.entry (delete o t) free') restored',
      λ k. alike k ∙ alike' k,
    )

-- Two new rows in either order.
put-put :
    (o j : OutPoint) (u w : UtxoEntry) (t t1 : Utxos)
    → (j =? o) ≡ false
    → ((k : OutPoint) → lookup k t1 ≡ lookup k (put j w t))
    → Same (put o u t1) (put j w (put o u t))
put-put o j u w t t1 other rows k = elim (Bool-cases (o =? k)) [
  | inl e ↦
      let apart : (j =? k) ≡ false = rw (← =?-eq o k e) other in
      lookup-put o k u t1
      ∙ (rw (e, lookup-put j k w (put o u t), apart, lookup-put o k u t, e) refl)
  | inr e ↦
      lookup-put o k u t1
      ∙ (rw (e, rows k, lookup-put j k w t, lookup-put j k w (put o u t), lookup-put o k u t, e)
          refl)
]

-- A row under a key that is not there in the end can be there from the start.
pub restore_added :
    (entries : List UndoEntry) (t r : Utxos) (o : OutPoint) (u : UtxoEntry)
    → lookup o r ≡ none
    → restore entries t ≡ ok r
    → (r' : Utxos) × (restore entries (put o u t) ≡ ok r') × Same (put o u r) r'
unfolding restore
restore_added [] t r o u free h =
    (put o u t, refl, λ k. ap (λ z. lookup k (put o u z)) (sym (ok-injective h)))
restore_added (e ∷ entries) t r o u free h =
    let (t1, added, h1) = >>=-eq-ok (add_utxo e.outpoint e.entry t) _ h in
    let (vacant, rows) = add_utxo_lem e.outpoint e.entry t t1 added in
    let there : lookup e.outpoint t1 ≡ some e.entry =
      rows e.outpoint
      ∙ lookup-put e.outpoint e.outpoint e.entry t
      ∙ (rw (=?-refl e.outpoint) refl) in
    let kept = restore-keeps entries t1 r e.outpoint e.entry h1 there in
    let apart : e.outpoint ≢ o =
      λ same. let clash : none ≡ some e.entry = sym free ∙ (rw (← same) kept) in cc in
    let other = =?-ne e.outpoint o apart in
    let other' = =?-ne o e.outpoint (λ same. apart (sym same)) in
    let (r1, restored, alike) = restore_added entries t1 r o u free h1 in
    let vacant' : lookup e.outpoint (put o u t) ≡ none =
      lookup-put o e.outpoint u t ∙ (rw other' vacant) in
    let (r2, restored', alike') =
      restore-Same entries (put o u t1) (put e.outpoint e.entry (put o u t)) r1
        (put-put o e.outpoint u e.entry t t1 other rows) restored in
    (
      r2,
      rw (add_utxo_free e.outpoint e.entry (put o u t) vacant') restored',
      λ k. alike k ∙ alike' k,
    )

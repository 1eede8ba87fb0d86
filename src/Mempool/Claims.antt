-- ===== src/Mempool/Claims.antt =====
-- The index of spent outpoints of the pool: what `_remove` and `accept` do to a claim.
use obsidion.Prelude.{
  ◌≡◌, ◌≢◌, refl, sym, ◌∙◌, Bool, true, false, List, [], ◌∷◌, Bytes, none, some, inl, inr,
  Bool-cases, Option-cases, if◌then◌else◌,
}
use obsidion.Prelude.Eq.{◌=?◌, ℕ_eq, List_eq, =?-eq, =?-ne, =?-refl}
use obsidion.Table.{Table, lookup, put, delete}
use obsidion.Table.Laws.{lookup-put, lookup-delete}
use obsidion.Transaction.Model.{OutPoint, OutPoint_eq, TxIn}
use obsidion.Mempool.{release, claim}

abbrev pub has_input : OutPoint → List TxIn → Bool
has_input o [] = false
has_input o (i ∷ inputs) = if i.prevout =? o then true else has_input o inputs

-- What is still claimed was, and is not an input of the released transaction under its own claim.
pub lookup-release :
    (id : Bytes) (inputs : List TxIn) (spends : Table OutPoint Bytes) (o : OutPoint) (k : Bytes)
    → lookup o (release id inputs spends) ≡ some k
    → (lookup o spends ≡ some k) × (has_input o inputs ≡ true → k ≢ id)
unfolding release
lookup-release id [] spends o k h = (h, λ e. cc)
lookup-release id (i ∷ inputs) spends o k h = elim (Option-cases (lookup i.prevout spends)) [
  | inl free ↦
      let (found, other) = lookup-release id inputs spends o k (rw (release, free) at h) in
      (
        found,
        λ e. elim (Bool-cases (i.prevout =? o)) [
          | inl same ↦
              let clash : none ≡ some k = sym free ∙ (rw (=?-eq i.prevout o same) found) in cc
          | inr apart ↦ other (rw apart at e)
        ],
      )
  | inr (owner, taken) ↦ elim (Bool-cases (owner =? id)) [
    | inl own ↦
        let (found, other) =
          lookup-release id inputs (delete i.prevout spends) o k (rw (release, taken, own) at h) in
        elim (Bool-cases (i.prevout =? o)) [
          | inl same ↦
              let clash : none ≡ some k =
                sym (lookup-delete i.prevout o spends ∙ (rw same refl)) ∙ found in
              cc
          | inr apart ↦ (
            sym (lookup-delete i.prevout o spends ∙ (rw apart refl)) ∙ found,
            λ e. other (rw apart at e),
          )
        ]
    | inr foreign ↦
        let (found, other) =
          lookup-release id inputs spends o k (rw (release, taken, foreign) at h) in
        (
          found,
          λ e. elim (Bool-cases (i.prevout =? o)) [
            | inl same ↦ λ mine.
                let e1 : some owner ≡ some k = sym taken ∙ (rw (=?-eq i.prevout o same) found) in
                let e2 : owner ≡ id = (let e3 : owner ≡ k = cc in e3 ∙ mine) in
                let clash : true ≡ false = sym (rw e2 (=?-refl id)) ∙ foreign in cc
            | inr apart ↦ other (rw apart at e)
          ],
        )
  ]
]

-- The claims of other transactions stay.
pub release-other :
    (id : Bytes) (inputs : List TxIn) (spends : Table OutPoint Bytes) (o : OutPoint) (k : Bytes)
    → k ≢ id
    → lookup o spends ≡ some k
    → lookup o (release id inputs spends) ≡ some k
unfolding release
release-other id [] spends o k other found = found
release-other id (i ∷ inputs) spends o k other found =
    elim (Option-cases (lookup i.prevout spends)) [
      | inl free ↦ rw (release, free) (release-other id inputs spends o k other found)
      | inr (owner, taken) ↦ elim (Bool-cases (owner =? id)) [
        | inl own ↦
            let apart : (i.prevout =? o) ≡ false = =?-ne i.prevout o λ same.
              let e1 : some owner ≡ some k = sym taken ∙ (rw same found) in
              let e2 : owner ≡ k = cc in other (sym e2 ∙ =?-eq owner id own) in
            rw (release, taken, own)
              (release-other id inputs (delete i.prevout spends) o k other
                (lookup-delete i.prevout o spends ∙ (rw apart found)))
        | inr foreign ↦
            rw (release, taken, foreign) (release-other id inputs spends o k other found)
      ]
    ]

-- Every input is claimed, nothing else changes.
pub lookup-claim :
    (id : Bytes) (inputs : List TxIn) (spends : Table OutPoint Bytes) (o : OutPoint)
    → lookup o (claim id inputs spends) ≡ (if has_input o inputs then some id else lookup o spends)
unfolding claim
lookup-claim id [] spends o = refl
lookup-claim id (i ∷ inputs) spends o = elim (Bool-cases (i.prevout =? o)) [
  | inl same ↦
      lookup-claim id inputs (put i.prevout id spends) o
      ∙ (rw (lookup-put i.prevout o id spends, same) (either_way (has_input o inputs)))
  | inr apart ↦
      lookup-claim id inputs (put i.prevout id spends) o
      ∙ (rw (lookup-put i.prevout o id spends, apart) refl)
]
  where
    either_way : (b : Bool) → (if b then some id else some id) ≡ some id
    either_way true = refl
    either_way false = refl

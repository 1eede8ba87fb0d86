-- ===== src/ChainState/Restore/Made.antt =====
-- The outputs that transactions create, and a table without them.
use obsidion.Prelude.{
  ℕ, suc, ◌≡◌, ◌≢◌, refl, Bool, List, [], ◌∷◌, ◌++◌, reverse, Bytes, none, sym, ◌∙◌, ap, Bool-cases,
  inl, inr, true, false, if◌then◌else◌, All, All-append, subst,
}
use mathlib.Core.List.{reverse-append}
use obsidion.Prelude.Eq.{◌=?◌, =?-ne}
use obsidion.Prelude.Result.{ok, err, >>=-eq-ok, ok-injective}
use obsidion.Errors.{Try}
use obsidion.Crypto.{Platform}
use obsidion.Table.{lookup, delete}
use obsidion.Table.Laws.{lookup-delete}
use obsidion.Transaction.Model.{OutPoint, OutPoint_eq, TxOut, Transaction}
use obsidion.Transaction.Signing.{txid}
use obsidion.Storage.{Utxos, delete_utxo}
use obsidion.ChainState.Connect.{delete_outputs, delete_created}

abbrev pub at : Bytes → ℕ → OutPoint
at id index = record { txid = id; index = index }

-- Whether an outpoint is an output of the transaction `id`, from an index on.
abbrev pub covers : Bytes → ℕ → List TxOut → OutPoint → Bool
covers id index [] o = false
covers id index (x ∷ outputs) o = if at id index =? o then true else covers id (suc index) outputs o

abbrev pub covers_named : Try Bytes → List TxOut → OutPoint → Bool
covers_named (ok id) outputs o = covers id 0 outputs o
covers_named (err e) outputs o = false

module _ (c : Platform) where
  -- Whether one of the transactions creates an outpoint.
  abbrev pub made : List Transaction → OutPoint → Bool
  made [] o = false
  made (tx ∷ transactions) o =
      if covers_named (txid c tx) tx.outputs o then true else made transactions o

pub covers_other :
    (id : Bytes) (index : ℕ) (outputs : List TxOut) (o : OutPoint)
    → id ≢ o.txid
    → covers id index outputs o ≡ false
covers_other id index [] o other = refl
covers_other id index (x ∷ outputs) o other =
    let apart = =?-ne (at id index) o (λ same. other (ap (λ z. z.txid) same)) in
    rw apart (covers_other id (suc index) outputs o other)

if_same : {A : Type 0} (b : Bool) (x : A) → (if b then x else x) ≡ x
if_same true x = refl
if_same false x = refl

if_either :
    {A : Type 0} (a b : Bool) (x y : A)
    → (if b then x else if a then x else y) ≡ (if (if a then true else b) then x else y)
if_either true b x y = if_same b _
if_either false true x y = refl
if_either false false x y = refl

pub if_assoc :
    (a b d : Bool)
    → (if a then true else if b then true else d) ≡ (if (if a then true else b) then true else d)
if_assoc true b d = refl
if_assoc false b d = refl

if_comm : (a b : Bool) → (if a then true else if b then true else false) ≡ (if b then true else a)
if_comm true true = refl
if_comm true false = refl
if_comm false true = refl
if_comm false false = refl

lookup-delete_outputs :
    (id : Bytes) (index : ℕ) (outputs : List TxOut) (t : Utxos) (o : OutPoint)
    → lookup o (delete_outputs id index outputs t)
      ≡ (if covers id index outputs o then none else lookup o t)
unfolding delete_outputs delete_utxo
lookup-delete_outputs id index [] t o = refl
lookup-delete_outputs id index (x ∷ outputs) t o =
    let rest = lookup-delete_outputs id (suc index) outputs (delete (at id index) t) o in
    elim (Bool-cases (at id index =? o)) [
      | inl e ↦
          rest
          ∙ (rw (lookup-delete (at id index) o t, e)
              (if_same (covers id (suc index) outputs o) none))
      | inr e ↦ rest ∙ (rw (lookup-delete (at id index) o t, e) refl)
    ]

module _ (c : Platform) where
  -- Deleting what the transactions have created, in whatever order.
  lookup-delete_created :
      (transactions : List Transaction) (t t' : Utxos) (o : OutPoint)
      → delete_created c transactions t ≡ ok t'
      → lookup o t' ≡ (if made c transactions o then none else lookup o t)
  unfolding delete_created
  lookup-delete_created [] t t' o h = ap (lookup o) (sym (ok-injective h))
  lookup-delete_created (tx ∷ transactions) t t' o h =
      let (id, named, h1) = >>=-eq-ok (txid c tx) _ h in
      let rest =
        lookup-delete_created transactions (delete_outputs id 0 tx.outputs t) t' o h1
        ∙ ap (λ z. if made c transactions o then none else z)
            (lookup-delete_outputs id 0 tx.outputs t o) in
      let named' : covers_named (txid c tx) tx.outputs o ≡ covers id 0 tx.outputs o =
        ap (λ z. covers_named z tx.outputs o) named in
      rw named' (rest ∙ if_either (covers id 0 tx.outputs o) (made c transactions o) none _)

  -- The ids are known.
  abbrev pub AreIdentified : List Transaction → Type 0
  AreIdentified transactions = All (λ tx. (id : Bytes) × (txid c tx ≡ ok id)) transactions

  delete_created_total :
      (transactions : List Transaction) (t : Utxos)
      → AreIdentified transactions
      → (t' : Utxos) × (delete_created c transactions t ≡ ok t')
  unfolding delete_created
  delete_created_total [] t h = (t, refl)
  delete_created_total (tx ∷ transactions) t ((id, named), h) =
      let (t', done) = delete_created_total transactions (delete_outputs id 0 tx.outputs t) h in
      (t', rw named done)

  made-append :
      (xs ys : List Transaction) (o : OutPoint)
      → made c (xs ++ ys) o ≡ (if made c xs o then true else made c ys o)
  made-append [] ys o = refl
  made-append (x ∷ xs) ys o =
      ap (λ z. if covers_named (txid c x) x.outputs o then true else z) (made-append xs ys o)
      ∙ if_assoc (covers_named (txid c x) x.outputs o) (made c xs o) (made c ys o)

  made-reverse : (xs : List Transaction) (o : OutPoint) → made c (reverse xs) o ≡ made c xs o
  made-reverse [] o = refl
  made-reverse (x ∷ xs) o =
      ap (λ l. made c l o) (reverse-append (x ∷ []) xs)
      ∙ made-append (reverse xs) (x ∷ []) o
      ∙ ap (λ z. if z then true else made c (x ∷ []) o) (made-reverse xs o)
      ∙ if_comm (made c xs o) (covers_named (txid c x) x.outputs o)

  AreIdentified-reverse : (xs : List Transaction) → AreIdentified xs → AreIdentified (reverse xs)
  AreIdentified-reverse [] h = tt
  AreIdentified-reverse (x ∷ xs) (h, hs) = subst AreIdentified (sym (reverse-append (x ∷ []) xs)) (
      All-append (λ tx. (id : Bytes) × (txid c tx ≡ ok id)) (reverse xs) (x ∷ [])
        (AreIdentified-reverse xs hs) (h, tt))

  -- The second pass of `_disconnect`: it ends, and exactly what the transactions create is gone.
  pub delete_created-reverse :
      (transactions : List Transaction) (t : Utxos)
      → AreIdentified transactions
      → (t' : Utxos) × (delete_created c (reverse transactions) t ≡ ok t')
        × ((o : OutPoint) → lookup o t' ≡ (if made c transactions o then none else lookup o t))
  delete_created-reverse transactions t h =
      let (t', done) =
        delete_created_total (reverse transactions) t (AreIdentified-reverse transactions h) in
      (
        t',
        done,
        λ o.
            lookup-delete_created (reverse transactions) t t' o done
            ∙ ap (λ z. if z then none else lookup o t) (made-reverse transactions o),
      )

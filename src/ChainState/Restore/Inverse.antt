-- ===== src/ChainState/Restore/Inverse.antt =====
-- Disconnecting a block gives back the outputs that connecting it has spent. The loops of `_connect`
-- keep what both passes of `_disconnect` would make of the table at that point.
use obsidion.Prelude.{
  ℕ, suc, ◌+◌, ◌≡◌, ◌≢◌, ◌≤◌, refl, Bool, ◌&&◌, not, List, [], ◌∷◌, ◌++◌, Bytes, Option, some, none,
  sym, ◌∙◌, ap, Bool-cases, inl, inr, true, false, ltb, if◌then◌else◌, arith, All, subst,
}
use obsidion.Prelude.Int.{pos, ltb_ℤ}
use obsidion.Prelude.Eq.{◌=?◌, =?-eq, =?-ne}
use obsidion.Prelude.Result.{
  ok, >>=-eq-ok, >>-eq-ok, ok-injective, raise_if, or_raise, or_raise-eq-ok,
}
use obsidion.Errors.{
  consensus_error, immature_coinbase, bad_signature, outputs_exceed_inputs, overwrites_output,
}
use obsidion.Params.{NetworkParams}
use obsidion.Crypto.{Platform}
use obsidion.Table.{lookup, put, insert}
use obsidion.Table.Laws.{lookup-put, lookup-insert}
use obsidion.Transaction.Model.{OutPoint, OutPoint_eq, TxIn, TxOut, Transaction, total_output_value}
use obsidion.Transaction.Signing.{txid, verify_input}
use obsidion.Block.Model.{txids_of}
use obsidion.Consensus.Rules.Accepted.{AreDistinct}
use obsidion.Storage.{UtxoEntry, Utxos, delete_utxo, get_utxo}
use obsidion.ChainState.Undo.{UndoEntry, pack_undo}
use obsidion.ChainState.Connect.{
  Progress, add_outputs, connect_input, connect_inputs, connect_transaction, connect_transactions,
  restore,
}
use obsidion.ChainState.Restore.{Same, restore-Same, restore_spent, restore_added}
use obsidion.ChainState.Restore.Made.{at, covers, covers_other, covers_named, made}

-- With the undo entries put back and what `gone` names left out, the table answers like the first.
abbrev pub Undoes : Utxos → (OutPoint → Bool) → List UndoEntry → Utxos → Type 0
Undoes first gone entries utxos =
    (r : Utxos) × (restore entries utxos ≡ ok r)
    × ((o : OutPoint) → (if gone o then none else lookup o r) ≡ lookup o first)

pub Undoes-cong :
    (first : Utxos) (gone gone' : OutPoint → Bool) (entries : List UndoEntry) (utxos : Utxos)
    → ((o : OutPoint) → gone o ≡ gone' o)
    → Undoes first gone entries utxos
    → Undoes first gone' entries utxos
Undoes-cong first gone gone' entries utxos same (r, restored, answers) =
    (r, restored, λ o. ap (λ z. if z then none else lookup o r) (sym (same o)) ∙ answers o)

-- Outputs of a transaction that is new to the restored table.
add_outputs-restore :
    (id : Bytes) (height : ℕ) (from_coinbase : Bool) (index : ℕ) (outputs : List TxOut)
    (entries : List UndoEntry) (t t' r : Utxos)
    → ((j : ℕ) → index ≤ j → lookup (at id j) r ≡ none)
    → restore entries t ≡ ok r
    → add_outputs id height from_coinbase index outputs t ≡ ok t'
    → (r' : Utxos) × (restore entries t' ≡ ok r')
      × ((o : OutPoint) → (if covers id index outputs o then none else lookup o r') ≡ lookup o r)
unfolding add_outputs
add_outputs-restore id height from_coinbase index [] entries t t' r fresh restored h =
    (r, ap (restore entries) (sym (ok-injective h)) ∙ restored, λ o. refl)
add_outputs-restore id height from_coinbase index (x ∷ outputs) entries t t' r fresh restored h =
    let key = at id index in
    let new : UtxoEntry = record {
      amount = x.amount;
      pubkey_hash = x.pubkey_hash;
      height = height;
      is_coinbase = from_coinbase;
    } in
    let (t1, inserted, h1) =
      >>=-eq-ok (or_raise (insert key new t) (consensus_error overwrites_output)) _ h in
    let (r1, restored1, alike) =
      restore_added entries t r key new (fresh index (omega arith)) restored in
    let rows : Same (put key new t) t1 = λ k.
      lookup-put key k new t
      ∙ sym ((lookup-insert key k new t t1 (or_raise-eq-ok _ _ inserted)).1) in
    let (r2, restored2, alike2) = restore-Same entries (put key new t) t1 r1 rows restored1 in
    let rows2 : (k : OutPoint) → lookup k r2 ≡ (if key =? k then some new else lookup k r) =
      λ k. sym (alike2 k) ∙ sym (alike k) ∙ lookup-put key k new r in
    let (r3, restored3, left) =
      add_outputs-restore id height from_coinbase (suc index) outputs entries t1 t' r2
        (λ j above.
          let apart = =?-ne key (at id j) (λ same. omega (arith, ap (λ z. z.index) same)) in
          rows2 (at id j) ∙ (rw apart (fresh j (omega arith))))
        restored2 h1 in
    (
      r3,
      restored3,
      λ o. elim (Bool-cases (key =? o)) [
        | inl e ↦
            rw e (sym (ap (λ z. lookup z r) (sym (=?-eq key o e)) ∙ fresh index (omega arith)))
        | inr e ↦ rw e (left o ∙ rows2 o ∙ (rw e refl))
      ],
    )

-- One more maker of rows, in the words of `Undoes`.
combine :
    (covered gone : Bool) (now before start : Option UtxoEntry)
    → (if covered then none else now) ≡ before
    → (if gone then none else before) ≡ start
    → (if if covered then true else gone then none else now) ≡ start
combine true true now before start left answers = answers
combine true false now before start left answers = left ∙ answers
combine false true now before start left answers = answers
combine false false now before start left answers = left ∙ answers

if_swap :
    (a b d : Bool)
    → (if a then true else if b then true else d) ≡ (if (if b then true else a) then true else d)
if_swap true true d = refl
if_swap true false d = refl
if_swap false true d = refl
if_swap false false d = refl

All-zip :
    {A : Type 0} (P Q R : A → Type 0)
    → ((a : A) → P a → Q a → R a)
    → (xs : List A) → All P xs
    → All Q xs
    → All R xs
All-zip P Q R f [] ps qs = tt
All-zip P Q R f (x ∷ xs) (a, ps) (b, qs) = (f x a b, All-zip P Q R f xs ps qs)

module _ (c : Platform) (p : NetworkParams) (height : ℕ) (first : Utxos) where
  connect_input-Undoes :
      (gone : OutPoint → Bool) (tx : Transaction) (index : ℕ) (i : TxIn) (s s' : Progress)
      → Undoes first gone s.undo_entries s.utxos
      → connect_input c p height tx index i s ≡ ok s'
      → Undoes first gone s'.undo_entries s'.utxos
  unfolding connect_input get_utxo
  connect_input-Undoes gone tx index i s s' (r, restored, answers) h =
      let (row, found, h1) = >>=-eq-ok (or_raise (get_utxo i.prevout s.utxos) _) _ h in
      let (_, _, h2) =
        >>-eq-ok
          (raise_if (row.is_coinbase && ltb height (row.height + p.coinbase_maturity))
            (consensus_error immature_coinbase))
          _ h1 in
      let (verified, _, h3) = >>=-eq-ok (verify_input c tx index row.pubkey_hash row.amount) _ h2 in
      let (_, _, h4) = >>-eq-ok (raise_if (not verified) (consensus_error bad_signature)) _ h3 in
      let (_, _, h5) = >>-eq-ok (pack_undo (record { outpoint = i.prevout; entry = row })) _ h4 in
      let (r', restored', alike) =
        restore_spent s.undo_entries s.utxos r i.prevout row (or_raise-eq-ok _ _ found) restored in
      let done : Undoes first gone
          (s.undo_entries ++ record { outpoint = i.prevout; entry = row } ∷ [])
          (delete_utxo i.prevout s.utxos) =
        (r', restored', λ o. ap (λ z. if gone o then none else z) (sym (alike o)) ∙ answers o) in
      subst (λ z. Undoes first gone z.undo_entries z.utxos) (ok-injective h5) done

  connect_inputs-Undoes :
      (gone : OutPoint → Bool) (tx : Transaction) (index : ℕ) (inputs : List TxIn) (s s' : Progress)
      → Undoes first gone s.undo_entries s.utxos
      → connect_inputs c p height tx index inputs s ≡ ok s'
      → Undoes first gone s'.undo_entries s'.utxos
  unfolding connect_inputs
  connect_inputs-Undoes gone tx index [] s s' u h =
      subst (λ z. Undoes first gone z.undo_entries z.utxos) (ok-injective h) u
  connect_inputs-Undoes gone tx index (i ∷ inputs) s s' u h =
      let (s1, h1, h2) = >>=-eq-ok (connect_input c p height tx index i s) _ h in
      connect_inputs-Undoes gone tx (suc index) inputs s1 s'
        (connect_input-Undoes gone tx index i s s1 u h1) h2

  -- An id that the first table does not have, and that nothing has made so far.
  abbrev pub IsFresh : (OutPoint → Bool) → Bytes → Type 0
  IsFresh gone id = (index : ℕ) → (gone (at id index) ≡ false) × (lookup (at id index) first ≡ none)

  pub outputs-Undoes :
      (gone : OutPoint → Bool) (id : Bytes) (from_coinbase : Bool) (outputs : List TxOut)
      (entries : List UndoEntry) (t t' : Utxos)
      → IsFresh gone id
      → Undoes first gone entries t
      → add_outputs id height from_coinbase 0 outputs t ≡ ok t'
      → Undoes first (λ o. if covers id 0 outputs o then true else gone o) entries t'
  outputs-Undoes gone id from_coinbase outputs entries t t' fresh (r, restored, answers) h =
      let new : (j : ℕ) → 0 ≤ j → lookup (at id j) r ≡ none = λ j _.
        let (unmade, absent) = fresh j in
        ap (λ z. if z then none else lookup (at id j) r) (sym unmade)
        ∙ answers (at id j)
        ∙ absent in
      let (r', restored', left) =
        add_outputs-restore id height from_coinbase 0 outputs entries t t' r new restored h in
      (
        r',
        restored',
        λ o.
            combine (covers id 0 outputs o) (gone o) (lookup o r') (lookup o r) (lookup o first)
              (left o) (answers o),
      )

  connect_transaction-Undoes :
      (gone : OutPoint → Bool) (tx : Transaction) (id : Bytes) (s s' : Progress)
      → txid c tx ≡ ok id
      → IsFresh gone id
      → Undoes first gone s.undo_entries s.utxos
      → connect_transaction c p height tx s ≡ ok s'
      → Undoes first
          (λ o. if covers_named (txid c tx) tx.outputs o then true else gone o)
          s'.undo_entries
          s'.utxos
  unfolding connect_transaction
  connect_transaction-Undoes gone tx id s s' named fresh u h =
      let (s1, spent, h1) =
        >>=-eq-ok (connect_inputs c p height tx 0 tx.inputs (record s { amount = pos 0 })) _ h in
      let (_, _, h2) =
        >>-eq-ok
          (raise_if (ltb_ℤ s1.amount (total_output_value tx))
            (consensus_error outputs_exceed_inputs))
          _ h1 in
      let (id', named', h3) = >>=-eq-ok (txid c tx) _ h2 in
      let (t, added, h4) = >>=-eq-ok (add_outputs id' height false 0 tx.outputs s1.utxos) _ h3 in
      let same : id' ≡ id = ok-injective (sym named' ∙ named) in
      let u1 = connect_inputs-Undoes gone tx 0 tx.inputs (record s { amount = pos 0 }) s1 u spent in
      let u2 : Undoes first (λ o. if covers id 0 tx.outputs o then true else gone o) s1.undo_entries
          t =
        outputs-Undoes gone id false tx.outputs s1.undo_entries s1.utxos t fresh u1
          (subst (λ z. add_outputs z height false 0 tx.outputs s1.utxos ≡ ok t) same added) in
      let u3 =
        Undoes-cong first (λ o. if covers id 0 tx.outputs o then true else gone o)
          (λ o. if covers_named (txid c tx) tx.outputs o then true else gone o) s1.undo_entries t
          (λ o. ap (λ z. if covers_named z tx.outputs o then true else gone o) (sym named)) u2 in
      subst
        (λ z.
          Undoes first (λ o. if covers_named (txid c tx) tx.outputs o then true else gone o)
            z.undo_entries z.utxos)
        (ok-injective h4) u3

  -- An id stays fresh after a transaction with another one.
  IsFresh-next :
      (gone : OutPoint → Bool) (tx : Transaction) (id other : Bytes)
      → txid c tx ≡ ok id
      → id ≢ other
      → IsFresh gone other
      → IsFresh (λ o. if covers_named (txid c tx) tx.outputs o then true else gone o) other
  IsFresh-next gone tx id other named apart fresh j =
      (rw (named, covers_other id 0 tx.outputs (at other j) apart) (fresh j).0, (fresh j).1)

  pub connect_transactions-Undoes :
      (gone : OutPoint → Bool) (transactions : List Transaction) (ids : List Bytes)
      (s s' : Progress)
      → txids_of c transactions ≡ ok ids
      → AreDistinct ids
      → All (IsFresh gone) ids
      → Undoes first gone s.undo_entries s.utxos
      → connect_transactions c p height transactions s ≡ ok s'
      → Undoes first (λ o. if made c transactions o then true else gone o) s'.undo_entries s'.utxos
  unfolding connect_transactions txids_of
  connect_transactions-Undoes gone [] ids s s' named distinct fresh u h =
      subst (λ z. Undoes first gone z.undo_entries z.utxos) (ok-injective h) u
  connect_transactions-Undoes gone (tx ∷ transactions) ids s s' named distinct fresh u h =
      let (id, first_named, h1) = >>=-eq-ok (txid c tx) _ named in
      let (rest, rest_named, h2) = >>=-eq-ok (txids_of c transactions) _ h1 in
      let (s1, done, h3) = >>=-eq-ok (connect_transaction c p height tx s) _ h in
      let (apart, distinct') = subst AreDistinct (sym (ok-injective h2)) distinct in
      let (new, fresh') = subst (λ z. All (IsFresh gone) z) (sym (ok-injective h2)) fresh in
      let gone1 : OutPoint → Bool =
        λ o. if covers_named (txid c tx) tx.outputs o then true else gone o in
      let u1 = connect_transaction-Undoes gone tx id s s1 first_named new u done in
      let later : All (IsFresh gone1) rest =
        All-zip (λ other. id ≢ other) (IsFresh gone) (IsFresh gone1)
          (λ other. IsFresh-next gone tx id other first_named) rest apart fresh' in
      let u2 =
        connect_transactions-Undoes gone1 transactions rest s1 s' rest_named distinct' later u1
          h3 in
      Undoes-cong first (λ o. if made c transactions o then true else gone1 o)
        (λ o. if made c (tx ∷ transactions) o then true else gone o) s'.undo_entries s'.utxos
        (λ o. if_swap (made c transactions o) (covers_named (txid c tx) tx.outputs o) (gone o)) u2

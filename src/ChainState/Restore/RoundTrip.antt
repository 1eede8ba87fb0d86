-- ===== src/ChainState/Restore/RoundTrip.antt =====
-- `_disconnect` of what `_connect` has made of the table of outputs.
use obsidion.Prelude.{
  ℕ, ◌≡◌, ◌≢◌, refl, Bool, List, [], ◌∷◌, Bytes, none, sym, ◌∙◌, ap, true, false, if◌then◌else◌,
  All, All-map, subst,
}
use obsidion.Prelude.Int.{pos}
use obsidion.Prelude.Result.{ok, >>=-eq-ok, >>-eq-ok, ok-injective}
use obsidion.Params.{NetworkParams}
use obsidion.Crypto.{Platform}
use obsidion.Table.{lookup}
use obsidion.Transaction.Model.{OutPoint, OutPoint_eq, Transaction}
use obsidion.Transaction.Signing.{txid}
use obsidion.Block.Model.{Block, coinbase, coinbase_lem, txids, txids_of}
use obsidion.Consensus.Rules.{check_coinbase_reward}
use obsidion.Consensus.Rules.Accepted.{AreDistinct}
use obsidion.Storage.{Utxos}
use obsidion.ChainState.Connect.{
  Progress, add_outputs, connect_transactions, connect_utxos, after_first, restore,
  disconnect_utxos,
}
use obsidion.ChainState.Restore.Made.{
  at, covers, covers_other, covers_named, made, AreIdentified, delete_created-reverse,
}
use obsidion.ChainState.Restore.Inverse.{
  Undoes, Undoes-cong, IsFresh, outputs-Undoes, connect_transactions-Undoes,
}

if_itself : (b : Bool) → (if b then true else false) ≡ b
if_itself true = refl
if_itself false = refl

module _ (c : Platform) where
  named_all :
      (transactions : List Transaction) (ids : List Bytes)
      → txids_of c transactions ≡ ok ids
      → AreIdentified c transactions
  unfolding txids_of
  named_all [] ids h = tt
  named_all (tx ∷ transactions) ids h =
      let (id, named, h1) = >>=-eq-ok (txid c tx) _ h in
      let (rest, rest_named, h2) = >>=-eq-ok (txids_of c transactions) _ h1 in
      ((id, named), named_all transactions rest rest_named)

  -- The rows of these ids are free.
  abbrev AreFree : Utxos → List Bytes → Type 0
  AreFree utxos ids = All (λ id. (index : ℕ) → lookup (at id index) utxos ≡ none) ids

  made_other :
      (id : Bytes) (index : ℕ) (transactions : List Transaction) (ids : List Bytes)
      → txids_of c transactions ≡ ok ids
      → All (λ other. id ≢ other) ids
      → made c transactions (at id index) ≡ false
  unfolding txids_of
  made_other id index [] ids h apart = refl
  made_other id index (tx ∷ transactions) ids h apart =
      let (other, named, h1) = >>=-eq-ok (txid c tx) _ h in
      let (rest, rest_named, h2) = >>=-eq-ok (txids_of c transactions) _ h1 in
      let (differs, later) = subst (λ z. All (λ o. id ≢ o) z) (sym (ok-injective h2)) apart in
      let later' = made_other id index transactions rest rest_named later in
      rw (named, covers_other other 0 tx.outputs (at id index) (λ same. differs (sym same))) later'

  -- The two loops of `_connect`, with the coinbase's outputs last.
  coinbase_last-Undoes :
      (p : NetworkParams) (height : ℕ) (tx : Transaction) (rest : List Transaction)
      (utxos t : Utxos) (ids : List Bytes) (id : Bytes) (s : Progress)
      → txids_of c (tx ∷ rest) ≡ ok ids
      → AreDistinct ids
      → AreFree utxos ids
      → connect_transactions c p height rest
          (record { utxos = utxos; undo_entries = []; amount = pos 0 })
        ≡ ok s
      → txid c tx ≡ ok id
      → add_outputs id height true 0 tx.outputs s.utxos ≡ ok t
      → Undoes utxos (made c (tx ∷ rest)) s.undo_entries t
  unfolding txids_of restore
  coinbase_last-Undoes p height tx rest utxos t ids id s named distinct free connected id_named
        added =
      let (id1, named1, h1) = >>=-eq-ok (txid c tx) _ named in
      let (ids1, rest_named, h2) = >>=-eq-ok (txids_of c rest) _ h1 in
      let (apart, distinct') = subst AreDistinct (sym (ok-injective h2)) distinct in
      let (vacant, free') = subst (λ z. AreFree utxos z) (sym (ok-injective h2)) free in
      let same : id1 ≡ id = ok-injective (sym named1 ∙ id_named) in
      let none_made : OutPoint → Bool = λ o. false in
      let start : Undoes utxos none_made [] utxos = (utxos, refl, λ o. refl) in
      let u1 =
        connect_transactions-Undoes c p height utxos none_made rest ids1
          (record { utxos = utxos; undo_entries = []; amount = pos 0 }) s rest_named distinct'
          (All-map (λ other v j. (refl, v j)) ids1 free') start connected in
      let u2 =
        Undoes-cong utxos (λ o. if made c rest o then true else false) (made c rest) s.undo_entries
          s.utxos (λ o. if_itself (made c rest o)) u1 in
      let new : IsFresh c p height utxos (made c rest) id = λ j. (
        made_other id j rest ids1 rest_named
            (subst (λ z. All (λ other. z ≢ other) ids1) same apart),
        subst (λ z. lookup (at z j) utxos ≡ none) same (vacant j),
      ) in
      let u3 =
        outputs-Undoes c p height utxos (made c rest) id true tx.outputs s.undo_entries s.utxos t
          new u2 added in
      Undoes-cong utxos (λ o. if covers id 0 tx.outputs o then true else made c rest o)
        (made c (tx ∷ rest)) s.undo_entries t
        (λ o. ap (λ z. if covers_named z tx.outputs o then true else made c rest o) (sym id_named))
        u3

  -- If `_connect` takes a block whose ids are distinct and have no row in the table yet, then
  -- `_disconnect` takes the resulting table and undo entries without an error, and its table answers
  -- every outpoint as the table before the block did.
  pub disconnect_utxos-connect_utxos :
      (p : NetworkParams) (height : ℕ) (block : Block) (utxos : Utxos) (ids : List Bytes)
      (s : Progress)
      → txids c block ≡ ok ids
      → AreDistinct ids
      → All (λ id. (index : ℕ) → lookup (at id index) utxos ≡ none) ids
      → connect_utxos c p height block utxos ≡ ok s
      → (utxos' : Utxos) × (disconnect_utxos c block s.undo_entries s.utxos ≡ ok utxos')
        × ((o : OutPoint) → lookup o utxos' ≡ lookup o utxos)
  unfolding connect_utxos disconnect_utxos txids after_first
  disconnect_utxos-connect_utxos p height block utxos ids s named distinct free h =
      let (s1, connected, h1) =
        >>=-eq-ok
          (connect_transactions c p height (after_first block.transactions)
            (record { utxos = utxos; undo_entries = []; amount = pos 0 }))
          _ h in
      let (_, _, h2) = >>-eq-ok (check_coinbase_reward block height s1.amount p) _ h1 in
      let (tx, first_tx, h3) = >>=-eq-ok (coinbase block) _ h2 in
      let (id, id_named, h4) = >>=-eq-ok (txid c tx) _ h3 in
      let (t, added, h5) = >>=-eq-ok (add_outputs id height true 0 tx.outputs s1.utxos) _ h4 in
      let (rest, whole) = coinbase_lem block first_tx in
      let u : Undoes utxos (made c block.transactions) s1.undo_entries t =
        subst (λ z. Undoes utxos (made c z) s1.undo_entries t) (sym whole)
          (coinbase_last-Undoes p height tx rest utxos t ids id s1
            (subst (λ z. txids_of c z ≡ ok ids) whole named) distinct free
            (subst
              (λ z.
                connect_transactions c p height (after_first z)
                  (record { utxos = utxos; undo_entries = []; amount = pos 0 })
                ≡ ok s1)
              whole connected)
            id_named added) in
      let (r, restored, answers) =
        subst (λ z. Undoes utxos (made c block.transactions) z.undo_entries z.utxos)
          (ok-injective h5) u in
      let (t', deleted, gone) =
        delete_created-reverse c block.transactions r (named_all block.transactions ids named) in
      (t', rw restored deleted, λ o. gone o ∙ answers o)

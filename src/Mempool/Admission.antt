-- ===== src/Mempool/Admission.antt =====
-- `accept` keeps the pool well formed and within its size.
use obsidion.Prelude.{
  ℕ, suc, ◌≤◌, ◌+◌, ◌≡◌, refl, sym, ◌∙◌, ap, subst, true, false, not, List, [], ◌∷◌, Bytes, Option,
  none, some, inl, inr, arith, Bool-cases, Option-cases,
}
use obsidion.Prelude.Int.{ℤ, pos, pos_part, neg_part, ◌+ℤ◌, ◌-ℤ◌, ◌≤ℤ◌, ltb_ℤ, int_laws}
use obsidion.Prelude.Eq.{◌=?◌, ℕ_eq, List_eq, =?-eq, =?-refl}
use obsidion.Prelude.Result.{
  ok, ◌>>=◌, >>=-eq-ok, >>-eq-ok, ok-injective, raise_if, raise_if-eq-ok, or_raise, or_raise-eq-ok,
}
use obsidion.Errors.{
  consensus_error, pool_full, pooled_coinbase, already_pooled, outputs_exceed_inputs, double_spend,
  bad_signature,
}
use obsidion.Params.{NetworkParams}
use obsidion.Crypto.{Platform}
use obsidion.Table.{lookup}
use obsidion.Table.Laws.{lookup-put}
use obsidion.Transaction.Model.{
  OutPoint, OutPoint_eq, TxIn, Transaction, is_coinbase, check_structure, total_output_value,
}
use obsidion.Transaction.Codec
use obsidion.Transaction.Signing.{txid, verify_input}
use obsidion.Storage.{Utxos}
use obsidion.Mempool.{
  MempoolEntry, Mempool, is_there, fits, make_room_for, source_of, sum_inputs, admission, with_room,
  insert_entry, accept,
}
use obsidion.Mempool.Claims.{has_input}
use obsidion.Mempool.WellFormed.{WellFormed, insert_entry-WellFormed}
use obsidion.Mempool.Eviction.{Shrinks, absent-Within}
use obsidion.Mempool.Room.{HasRoom, fits_lem, make_room_for_lem}

module _ (c : Platform) (p : NetworkParams) (max_size : ℕ) (depth : ℕ) where
  absent_of : {A : Type 0} (o : Option A) → is_there o ≡ false → o ≡ none
  absent_of none h = refl
  absent_of (some a) h = cc

  -- The loop over the inputs has seen no claim of one.
  sum_inputs_lem :
      (tx : Transaction) (next_height : ℕ) (utxos : Utxos) (pool : Mempool) (index : ℕ)
      (inputs : List TxIn) (before after : ℤ) (o : OutPoint)
      → sum_inputs c p max_size depth tx next_height utxos pool index inputs before ≡ ok after
      → has_input o inputs ≡ true
      → lookup o pool.spends ≡ none
  unfolding sum_inputs
  sum_inputs_lem tx next_height utxos pool index [] before after o h e = cc
  sum_inputs_lem tx next_height utxos pool index (i ∷ inputs) before after o h e =
      let (_, unclaimed, h1) =
        >>-eq-ok (raise_if (is_there (lookup i.prevout pool.spends)) (consensus_error double_spend))
          _ h in
      let ((amount, pubkey_hash), _, h2) =
        >>=-eq-ok (source_of c p max_size depth next_height utxos pool i.prevout) _ h1 in
      let (verified, _, h3) = >>=-eq-ok (verify_input c tx index pubkey_hash amount) _ h2 in
      let (_, _, h4) = >>-eq-ok (raise_if (not verified) (consensus_error bad_signature)) _ h3 in
      elim (Bool-cases (i.prevout =? o)) [
        | inl same ↦
            subst (λ z. lookup z pool.spends ≡ none) (=?-eq i.prevout o same)
              (absent_of _ (raise_if-eq-ok _ _ unclaimed))
        | inr other ↦
            sum_inputs_lem tx next_height utxos pool (suc index) inputs (before +ℤ amount) after o
              h4 (rw other at e)
      ]

  -- What `accept` has seen before it changes anything.
  abbrev Admits : Transaction → Mempool → Bytes → MempoolEntry → Type 0
  Admits tx pool id entry =
      (txid c tx ≡ ok id)
      × (entry.tx ≡ tx)
      × (lookup id pool.entries ≡ none)
      × ((o : OutPoint) → has_input o tx.inputs ≡ true → lookup o pool.spends ≡ none)
      × (pos 0 ≤ℤ entry.fee)

  admission_lem :
      (tx : Transaction) (next_height : ℕ) (utxos : Utxos) (pool : Mempool) (id : Bytes)
      (entry : MempoolEntry)
      → admission c p max_size depth tx next_height utxos pool ≡ ok (id, entry)
      → Admits tx pool id entry
  unfolding admission
  admission_lem tx next_height utxos pool id entry h =
      let (_, _, h1) = >>-eq-ok (raise_if (is_coinbase tx) (consensus_error pooled_coinbase)) _ h in
      let (_, _, h2) = >>-eq-ok (check_structure tx) _ h1 in
      let (id', named, h3) = >>=-eq-ok (txid c tx) _ h2 in
      let (_, absent, h4) =
        >>-eq-ok (raise_if (is_there (lookup id' pool.entries)) (consensus_error already_pooled)) _
          h3 in
      let (flows, summed, h5) =
        >>=-eq-ok (sum_inputs c p max_size depth tx next_height utxos pool 0 tx.inputs (pos 0)) _
          h4 in
      let (_, covered, h6) =
        >>-eq-ok
          (raise_if (ltb_ℤ flows (total_output_value tx)) (consensus_error outputs_exceed_inputs)) _
          h5 in
      let (size, _, h7) = >>=-eq-ok (Codec.size tx) _ h6 in
      let enough : ltb_ℤ flows (total_output_value tx) ≡ false = raise_if-eq-ok _ _ covered in
      let fee_positive : pos 0 ≤ℤ flows -ℤ total_output_value tx =
        fee_lem flows (total_output_value tx) enough in
      let e = ok-injective h7 in
      subst (λ z. Admits tx pool z.0 z.1) e
        (
          named,
          refl,
          absent_of _ (raise_if-eq-ok _ _ absent),
          λ o. sum_inputs_lem tx next_height utxos pool 0 tx.inputs (pos 0) flows o summed,
          fee_positive,
        )
    where
      fee_lem : (a b : ℤ) → ltb_ℤ a b ≡ false → pos 0 ≤ℤ a -ℤ b
      fee_lem a b h =
          (let k : pos_part b + neg_part a ≤ pos_part a + neg_part b = ground arith in
            omega (int_laws, k))

  with_room_lem :
      (entry : MempoolEntry) (pool pool' : Mempool)
      → WellFormed c pool
      → with_room c p max_size depth entry pool ≡ ok pool'
      → Shrinks c pool pool' × HasRoom c p max_size depth entry.size pool'
  unfolding with_room
  with_room_lem entry pool pool' wf h =
      elim (Bool-cases (fits c p max_size depth (pos 0) entry.size pool)) [
        | inl room ↦
            let free = fits_lem c p max_size depth (pos 0) entry.size pool room in
            subst (λ z. Shrinks c pool z × HasRoom c p max_size depth entry.size z)
              (ok-injective (rw room at h)) ((wf, λ id e found. found), omega (int_laws, free))
        | inr full ↦
            let h' : (make_room_for c p max_size depth entry pool >>= λ z.
            or_raise z (consensus_error pool_full))
                ≡ ok pool' =
              rw full at h in
            let (room, made, h1) = >>=-eq-ok (make_room_for c p max_size depth entry pool) _ h' in
            make_room_for_lem c p max_size depth entry pool pool' wf
              (made ∙ ap ok (or_raise-eq-ok room _ h1))
      ]

  -- Claims of a smaller pool.
  still_unclaimed :
      (pool pool' : Mempool) (o : OutPoint)
      → WellFormed c pool
      → Shrinks c pool pool'
      → lookup o pool.spends ≡ none
      → lookup o pool'.spends ≡ none
  still_unclaimed pool pool' o wf (wf', within) absent =
      elim (Option-cases (lookup o pool'.spends)) [
        | inl free ↦ free
        | inr (id, taken) ↦
            let (entry, found, mine) = wf'.claimed o id taken in
            let clash : none ≡ some id =
              sym absent ∙ wf.claims id entry o (within id entry found) mine in
            cc
      ]

  -- A pool that is well formed and within its size.
  abbrev pub IsSound : Mempool → Type 0
  IsSound pool = WellFormed c pool × (pool.total_size ≤ℤ pos max_size)

  -- If `accept` returns at a pool that is well formed and within its size, then so is the new pool,
  -- it holds the transaction under its id, and the fee is not negative.
  pub accept_lem :
      (tx : Transaction) (next_height : ℕ) (utxos : Utxos) (pool pool' : Mempool) (fee : ℤ)
      → IsSound pool
      → accept c p max_size depth tx next_height utxos pool ≡ ok (fee, pool')
      → IsSound pool'
        × ((id : Bytes) × (entry : MempoolEntry) × (txid c tx ≡ ok id)
            × (lookup id pool'.entries ≡ some entry)
            × (entry.tx ≡ tx)
            × (entry.fee ≡ fee))
        × (pos 0 ≤ℤ fee)
  unfolding accept insert_entry
  accept_lem tx next_height utxos pool pool' fee (wf, bounded) h =
      let ((id, entry), admitted, h1) =
        >>=-eq-ok (admission c p max_size depth tx next_height utxos pool) _ h in
      let (pool1, roomy, h2) = >>=-eq-ok (with_room c p max_size depth entry pool) _ h1 in
      let (named, same_tx, absent, unclaimed, positive) =
        admission_lem tx next_height utxos pool id entry admitted in
      let (shrunk, room) = with_room_lem entry pool pool1 wf roomy in
      let free : lookup id pool1.entries ≡ none = absent-Within pool pool1 id shrunk.1 absent in
      let wf' : WellFormed c (insert_entry id entry pool1) =
        insert_entry-WellFormed c id entry pool1 free (ap (txid c) same_tx ∙ named)
          (λ o mine.
            still_unclaimed pool pool1 o wf shrunk
              (unclaimed o (ap (λ z. has_input o z.inputs) (sym same_tx) ∙ mine)))
          shrunk.0 in
      let e : (entry.fee, insert_entry id entry pool1) ≡ (fee, pool') = ok-injective h2 in
      let last : insert_entry id entry pool1 ≡ pool' = ap (λ z. z.1) e in
      let paid : entry.fee ≡ fee = ap (λ z. z.0) e in
      (
        subst IsSound last (wf', room),
        (
          id,
          entry,
          named,
          subst (λ z. lookup id z.entries ≡ some entry) last
              (lookup-put id id entry pool1.entries ∙ (rw (=?-refl id) refl)),
          same_tx,
          paid,
        ),
        subst (λ z. pos 0 ≤ℤ z) paid positive,
      )

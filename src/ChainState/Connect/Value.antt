-- ===== src/ChainState/Connect/Value.antt =====
-- What connecting a block does to the sum of the unspent outputs.
use obsidion.Prelude.{
  ℕ, suc, ◌+◌, ◌≡◌, refl, Bool, true, false, ◌&&◌, not, List, [], ◌∷◌, ◌++◌, Bytes, some, arith,
  ltb, subst, ◌∙◌,
}
use obsidion.Prelude.Int.{ℤ, pos, ◌+ℤ◌, ◌-ℤ◌, ◌≤ℤ◌, ltb_ℤ, parts, int_laws}
use obsidion.Prelude.Result.{
  ok, >>=-eq-ok, >>-eq-ok, ok-injective, raise_if, raise_if-eq-ok, or_raise, or_raise-eq-ok,
}
use obsidion.Errors.{consensus_error, immature_coinbase, bad_signature, outputs_exceed_inputs}
use obsidion.Params.{NetworkParams}
use obsidion.Crypto.{Platform}
use obsidion.Table.{insert}
use obsidion.Table.Laws.{IsKeyed, put-IsKeyed, delete-IsKeyed}
use obsidion.Table.Sums.{total-put_new, total-delete}
use obsidion.Transaction.Model.{
  OutPoint, OutPoint_eq, TxIn, TxOut, Transaction, sum_amounts, total_output_value,
}
use obsidion.Transaction.Signing.{txid, verify_input}
use obsidion.Block.Model.{Block, coinbase}
use obsidion.Consensus.Emission.{reward, subsidy}
use obsidion.Consensus.Rules.{check_coinbase_reward}
use obsidion.Storage.{UtxoEntry, Utxos, sum_utxos, get_utxo, delete_utxo}
use obsidion.ChainState.Undo.{pack_undo}
use obsidion.ChainState.Connect.{
  Progress, add_outputs, connect_input, connect_inputs, connect_transaction, connect_transactions,
  connect_utxos, after_first,
}

-- A new row raises the sum by its amount.
insert_lem :
    (o : OutPoint) (u : UtxoEntry) (utxos utxos' : Utxos)
    → IsKeyed utxos
    → insert o u utxos ≡ some utxos'
    → IsKeyed utxos' × (sum_utxos utxos' ≡ sum_utxos utxos +ℤ u.amount)
unfolding insert sum_utxos
insert_lem o u utxos utxos' keyed h = ground (
  arith,
  put-IsKeyed o u utxos keyed,
  total-put_new (λ (k : OutPoint) (v : UtxoEntry). v.amount) o u utxos,
)

sum_amounts-acc :
    (acc : ℤ) (outputs : List TxOut) → sum_amounts acc outputs ≡ acc +ℤ sum_amounts (pos 0) outputs
unfolding sum_amounts
sum_amounts-acc acc [] = omega int_laws
sum_amounts-acc acc (o ∷ outputs) = omega (
  int_laws,
  parts (sum_amounts-acc (acc +ℤ o.amount) outputs),
  parts (sum_amounts-acc (pos 0 +ℤ o.amount) outputs),
)

pub add_outputs-value :
    (id : Bytes) (height : ℕ) (from_coinbase : Bool) (index : ℕ) (outputs : List TxOut)
    (utxos utxos' : Utxos)
    → IsKeyed utxos
    → add_outputs id height from_coinbase index outputs utxos ≡ ok utxos'
    → IsKeyed utxos' × (sum_utxos utxos' ≡ sum_utxos utxos +ℤ sum_amounts (pos 0) outputs)
unfolding add_outputs sum_amounts
add_outputs-value id height from_coinbase index [] utxos utxos' keyed h =
    let e = ok-injective h in rw (← e) (keyed, omega int_laws)
add_outputs-value id height from_coinbase index (o ∷ outputs) utxos utxos' keyed h =
    let (next, inserted, h') = >>=-eq-ok (or_raise (insert _ _ utxos) _) _ h in
    let put_in = insert_lem _ _ utxos next keyed (or_raise-eq-ok _ _ inserted) in
    let (keyed', sum') =
      add_outputs-value id height from_coinbase (suc index) outputs next utxos' put_in.0 h' in
    (
      keyed',
      omega (
        int_laws,
        parts sum',
        parts put_in.1,
        parts (sum_amounts-acc (pos 0 +ℤ o.amount) outputs),
      ),
    )

-- Spending a row lowers the sum by its amount.
delete_lem :
    (o : OutPoint) (u : UtxoEntry) (utxos : Utxos)
    → IsKeyed utxos
    → get_utxo o utxos ≡ some u
    → IsKeyed (delete_utxo o utxos)
      × (sum_utxos (delete_utxo o utxos) +ℤ u.amount ≡ sum_utxos utxos)
unfolding get_utxo delete_utxo sum_utxos
delete_lem o u utxos keyed h = (
  delete-IsKeyed o utxos keyed,
  total-delete (λ (k : OutPoint) (v : UtxoEntry). v.amount) o u utxos keyed h,
)

module _ (c : Platform) (p : NetworkParams) (height : ℕ) where
  -- What leaves the table enters the amount.
  abbrev Moves : Progress → Progress → Type 0
  Moves s s' = IsKeyed s'.utxos × (sum_utxos s'.utxos +ℤ s'.amount ≡ sum_utxos s.utxos +ℤ s.amount)

  connect_input-Moves :
      (tx : Transaction) (index : ℕ) (i : TxIn) (s s' : Progress)
      → IsKeyed s.utxos
      → connect_input c p height tx index i s ≡ ok s'
      → Moves s s'
  unfolding connect_input
  connect_input-Moves tx index i s s' keyed h =
      let (row, found, h1) = >>=-eq-ok (or_raise (get_utxo i.prevout s.utxos) _) _ h in
      let (_, _, h2) =
        >>-eq-ok
          (raise_if (row.is_coinbase && ltb height (row.height + p.coinbase_maturity))
            (consensus_error immature_coinbase))
          _ h1 in
      let (verified, _, h3) = >>=-eq-ok (verify_input c tx index row.pubkey_hash row.amount) _ h2 in
      let (_, _, h4) = >>-eq-ok (raise_if (not verified) (consensus_error bad_signature)) _ h3 in
      let (_, _, h5) = >>-eq-ok (pack_undo (record { outpoint = i.prevout; entry = row })) _ h4 in
      let (keyed', sum') = delete_lem i.prevout row s.utxos keyed (or_raise-eq-ok _ _ found) in
      let last : Progress = record {
        utxos = delete_utxo i.prevout s.utxos;
        undo_entries = s.undo_entries ++ record { outpoint = i.prevout; entry = row } ∷ [];
        amount = s.amount +ℤ row.amount;
      } in
      let moved : Moves s last = (keyed', omega (int_laws, parts sum')) in
      subst (λ z. Moves s z) (ok-injective h5) moved

  connect_inputs-Moves :
      (tx : Transaction) (index : ℕ) (inputs : List TxIn) (s s' : Progress)
      → IsKeyed s.utxos
      → connect_inputs c p height tx index inputs s ≡ ok s'
      → Moves s s'
  unfolding connect_inputs
  connect_inputs-Moves tx index [] s s' keyed h = rw (← ok-injective h) (keyed, refl)
  connect_inputs-Moves tx index (i ∷ inputs) s s' keyed h =
      let (s1, h1, h2) = >>=-eq-ok (connect_input c p height tx index i s) _ h in
      let (keyed1, moved1) = connect_input-Moves tx index i s s1 keyed h1 in
      let (keyed2, moved2) = connect_inputs-Moves tx (suc index) inputs s1 s' keyed1 h2 in
      (keyed2, moved2 ∙ moved1)

  -- A transaction turns the difference of its inputs and outputs into fees.
  connect_transaction-Moves :
      (tx : Transaction) (s s' : Progress)
      → IsKeyed s.utxos
      → connect_transaction c p height tx s ≡ ok s'
      → Moves s s'
  unfolding connect_transaction total_output_value
  connect_transaction-Moves tx s s' keyed h =
      let (s1, h1, h2) =
        >>=-eq-ok (connect_inputs c p height tx 0 tx.inputs (record s { amount = pos 0 })) _ h in
      let (_, _, h3) =
        >>-eq-ok
          (raise_if (ltb_ℤ s1.amount (total_output_value tx))
            (consensus_error outputs_exceed_inputs))
          _ h2 in
      let (id, _, h4) = >>=-eq-ok (txid c tx) _ h3 in
      let (utxos, h5, h6) = >>=-eq-ok (add_outputs id height false 0 tx.outputs s1.utxos) _ h4 in
      let (keyed1, moved1) =
        connect_inputs-Moves tx 0 tx.inputs (record s { amount = pos 0 }) s1 keyed h1 in
      let (keyed2, added) =
        add_outputs-value id height false 0 tx.outputs s1.utxos utxos keyed1 h5 in
      let last : Progress = record {
        utxos = utxos;
        undo_entries = s1.undo_entries;
        amount = s.amount +ℤ (s1.amount -ℤ total_output_value tx);
      } in
      let moved : Moves s last = (keyed2, omega (int_laws, parts moved1, parts added)) in
      subst (λ z. Moves s z) (ok-injective h6) moved

  connect_transactions-Moves :
      (transactions : List Transaction) (s s' : Progress)
      → IsKeyed s.utxos
      → connect_transactions c p height transactions s ≡ ok s'
      → Moves s s'
  unfolding connect_transactions
  connect_transactions-Moves [] s s' keyed h = rw (← ok-injective h) (keyed, refl)
  connect_transactions-Moves (tx ∷ transactions) s s' keyed h =
      let (s1, h1, h2) = >>=-eq-ok (connect_transaction c p height tx s) _ h in
      let (keyed1, moved1) = connect_transaction-Moves tx s s1 keyed h1 in
      let (keyed2, moved2) = connect_transactions-Moves transactions s1 s' keyed1 h2 in
      (keyed2, moved2 ∙ moved1)

  reward_le :
      (block : Block) (fees : ℤ) (tx : Transaction)
      → check_coinbase_reward block height fees p ≡ ok tt
      → coinbase block ≡ ok tx
      → total_output_value tx ≤ℤ pos (reward height p) +ℤ fees
  unfolding check_coinbase_reward subsidy
  reward_le block fees tx h e =
      let paid =
        raise_if-eq-ok (ltb_ℤ (pos (reward height p) +ℤ fees) (total_output_value tx)) _
          (rw e at h) in
      ground arith

  -- If a table has one row for each outpoint, a block that connects at a height leaves such a table,
  -- and raises the sum of the unspent outputs by at most the subsidy of that height.
  pub connect_utxos-value :
      (block : Block) (utxos : Utxos) (s : Progress)
      → IsKeyed utxos
      → connect_utxos c p height block utxos ≡ ok s
      → IsKeyed s.utxos × (sum_utxos s.utxos ≤ℤ sum_utxos utxos +ℤ pos (reward height p))
  unfolding connect_utxos total_output_value
  connect_utxos-value block utxos s keyed h =
      let start : Progress = record { utxos = utxos; undo_entries = []; amount = pos 0 } in
      let (s1, h1, h2) =
        >>=-eq-ok (connect_transactions c p height (after_first block.transactions) start) _ h in
      let (_, checked, h3) = >>-eq-ok (check_coinbase_reward block height s1.amount p) _ h2 in
      let (tx, first, h4) = >>=-eq-ok (coinbase block) _ h3 in
      let (id, _, h5) = >>=-eq-ok (txid c tx) _ h4 in
      let (utxos', h6, h7) = >>=-eq-ok (add_outputs id height true 0 tx.outputs s1.utxos) _ h5 in
      let (keyed1, moved) =
        connect_transactions-Moves (after_first block.transactions) start s1 keyed h1 in
      let (keyed2, added) =
        add_outputs-value id height true 0 tx.outputs s1.utxos utxos' keyed1 h6 in
      let paid = reward_le block s1.amount tx checked first in
      let last : Progress = record s1 { utxos = utxos' } in
      let raised : IsKeyed last.utxos
          × (sum_utxos last.utxos ≤ℤ sum_utxos utxos +ℤ pos (reward height p)) =
        (keyed2, omega (int_laws, parts moved, parts added, paid)) in
      subst
        (λ (z : Progress).
          IsKeyed z.utxos × (sum_utxos z.utxos ≤ℤ sum_utxos utxos +ℤ pos (reward height p)))
        (ok-injective h7) raised

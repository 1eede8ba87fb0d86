-- ===== src/Mempool.antt =====
-- obsidion/mempool.py: `MempoolEntry` and `Mempool`. The dicts are tables in order of insertion, and
-- the interpreter's recursion limit is a parameter. A `ConsensusError` is raised before anything
-- changes, so `accept` gives no pool with it.
pub mod Rate
pub mod Claims
pub mod WellFormed
pub mod Eviction
pub mod Budget
pub mod Room
pub mod Admission
pub mod Runs
pub mod Depth
pub mod Select
use obsidion.Prelude.{
  ℕ, zero, suc, ◌+◌, Bool, true, false, ◌&&◌, ◌||◌, not, List, [], ◌∷◌, ◌++◌, map, Bytes, length,
  get_elem?, Option, none, some, ltb, leb, ◌==◌, if◌then◌else◌,
}
use obsidion.Prelude.Int.{ℤ, pos, ◌+ℤ◌, ◌-ℤ◌, ltb_ℤ, eqb_ℤ}
use obsidion.Prelude.Eq.{◌=?◌, ℕ_eq, List_eq}
use obsidion.Prelude.Result.{ok, err, ◌>>=◌, ◌>>◌, raise_if, or_raise}
use obsidion.Errors.{
  Error, Try, consensus_error, runtime_error, pooled_coinbase, already_pooled, double_spend,
  immature_coinbase, unknown_output, bad_signature, outputs_exceed_inputs, pool_full, out_of_fuel,
}
use obsidion.Params.{NetworkParams}
use obsidion.Crypto.{Platform}
use obsidion.Table.{Table, lookup, put, delete}
use obsidion.Transaction.Model.{
  OutPoint, OutPoint_eq, TxIn, TxOut, Transaction, is_coinbase, check_structure, total_output_value,
}
use obsidion.Transaction.Codec
use obsidion.Transaction.Signing.{txid, verify_input}
use obsidion.Storage.{UtxoEntry, Utxos, get_utxo}
use obsidion.ChainState.Accept.{is_consensus}
use obsidion.Mempool.Rate.{fee_rate_of}

pub record MempoolEntry : Type 0 where
  pub tx : Transaction
  pub fee : ℤ
  pub size : ℕ

-- `fee_rate`
abbrev pub fee_rate : MempoolEntry → ℤ
fee_rate entry = fee_rate_of entry.fee entry.size

pub record Mempool : Type 0 where
  pub entries : Table Bytes MempoolEntry
  pub total_size : ℤ
  pub spends : Table OutPoint Bytes

-- `__init__`
abbrev pub empty_pool : Mempool
empty_pool = record { entries = []; total_size = pos 0; spends = [] }

abbrev pub is_there : {A : Type 0} → Option A → Bool
is_there none = false
is_there (some a) = true

-- `sorted`, which is stable: the new element goes before those that are not to come before it.
unfoldable pub insert_by : {A : Type 0} → (A → A → Bool) → A → List A → List A
insert_by precedes x [] = x ∷ []
insert_by precedes x (y ∷ ys) =
    let rest = insert_by precedes x ys in if precedes x y then x ∷ y ∷ ys else y ∷ rest

unfoldable pub sort_by : {A : Type 0} → (A → A → Bool) → List A → List A
unfolding insert_by
sort_by precedes [] = []
sort_by precedes (x ∷ xs) = insert_by precedes x (sort_by precedes xs)

-- `self.entries.values()`
unfoldable pub values : Table Bytes MempoolEntry → List MempoolEntry
values entries = map (λ row. row.1) entries

-- `del self.spends[...]` for the inputs whose claim is this transaction's.
unfoldable pub release : Bytes → List TxIn → Table OutPoint Bytes → Table OutPoint Bytes
release id [] spends = spends
release id (i ∷ inputs) spends =
    let kept = release id inputs spends in
    let released = release id inputs (delete i.prevout spends) in
    elim (lookup i.prevout spends) [
      | none ↦ kept
      | some claim ↦ (if claim =? id then released else kept)
    ]

-- `_remove`
unfoldable pub remove : Bytes → Mempool → Mempool
remove id pool = elim (lookup id pool.entries) [
  | none ↦ pool
  | some entry ↦ record {
    entries = delete id pool.entries;
    total_size = pool.total_size -ℤ pos entry.size;
    spends = release id entry.tx.inputs pool.spends;
  }
]

-- `self.spends[tx_input.prevout] = txid`
unfoldable pub claim : Bytes → List TxIn → Table OutPoint Bytes → Table OutPoint Bytes
claim id [] spends = spends
claim id (i ∷ inputs) spends = claim id inputs (put i.prevout id spends)

-- The loop over the outputs of `_evict_with_descendants`, from one on.
unfoldable pub evict_children :
    (Bytes → Mempool → Try Mempool) → Bytes → ℕ → List TxOut → Mempool → Try Mempool
evict_children evict_child id index [] pool = ok pool
evict_children evict_child id index (o ∷ outputs) pool =
    (elim (lookup (record { txid = id; index = index }) pool.spends) [
      | none ↦ ok pool
      | some child ↦ evict_child child pool
    ])
    >>= λ pool'. evict_children evict_child id (suc index) outputs pool'

-- `_evict_with_descendants`, with the calls that the interpreter still allows.
unfoldable pub evict : ℕ → Bytes → Mempool → Try Mempool
evict zero id pool = err runtime_error
evict (suc depth) id pool = elim (lookup id pool.entries) [
  | none ↦ ok pool
  | some entry ↦
      evict_children (evict depth) id 0 entry.tx.outputs pool >>= λ pool'. ok (remove id pool')
]

unfoldable pub evict_all : ℕ → List Bytes → Mempool → Try Mempool
evict_all depth [] pool = ok pool
evict_all depth (id ∷ ids) pool = do pool' ← evict depth id pool; evict_all depth ids pool'

abbrev pub cheapest_first : MempoolEntry → MempoolEntry → Bool
cheapest_first a b = not (ltb_ℤ (fee_rate b) (fee_rate a))

unfoldable pub insert_entry : Bytes → MempoolEntry → Mempool → Mempool
insert_entry id entry pool = record {
  entries = put id entry pool.entries;
  total_size = pool.total_size +ℤ pos entry.size;
  spends = claim id entry.tx.inputs pool.spends;
}

module _ (c : Platform) (p : NetworkParams) (max_size : ℕ) (depth : ℕ) where
  -- Whether a size fits, after something is freed.
  abbrev pub fits : ℤ → ℕ → Mempool → Bool
  fits freed size pool = not (ltb_ℤ (pos max_size) (pool.total_size -ℤ freed +ℤ pos size))

  -- The loop over the candidates: what to evict, or `none` for `return False`. The last case is the
  -- test after the loop.
  unfoldable pub choose_doomed :
      MempoolEntry → Mempool → List MempoolEntry → ℤ → List Bytes → Try (Option (List Bytes))
  choose_doomed incoming pool [] freed doomed =
      ok (if fits freed incoming.size pool then some doomed else none)
  choose_doomed incoming pool (entry ∷ candidates) freed doomed =
      let rest = (do
        id ← txid c entry.tx
        choose_doomed incoming pool candidates (freed +ℤ pos entry.size) (doomed ++ id ∷ [])) in
      if fits freed incoming.size pool
      then ok (some doomed)
      else (if ltb_ℤ (fee_rate entry) (fee_rate incoming) then rest else ok none)

  -- `_make_room_for`: the pool with room, or `none` for `False`.
  unfoldable pub make_room_for : MempoolEntry → Mempool → Try (Option Mempool)
  make_room_for incoming pool = do
    choice ← choose_doomed incoming pool (sort_by cheapest_first (values pool.entries)) (pos 0) []
    elim choice [
      | none ↦ ok none
      | some doomed ↦ evict_all depth doomed pool >>= λ pool'. ok (some pool')
    ]

  -- What an outpoint holds, in the chain or in the pool.
  unfoldable pub source_of : ℕ → Utxos → Mempool → OutPoint → Try (ℤ × Bytes)
  source_of next_height utxos pool outpoint = elim (get_utxo outpoint utxos) [
    | some utxo ↦ (do
      raise_if (utxo.is_coinbase && ltb next_height (utxo.height + p.coinbase_maturity))
          (consensus_error immature_coinbase)
      ok (utxo.amount, utxo.pubkey_hash))
    | none ↦ (do
      parent ← or_raise (lookup outpoint.txid pool.entries) (consensus_error unknown_output)
      output ←
          or_raise (get_elem? parent.tx.outputs outpoint.index) (consensus_error unknown_output)
      ok (output.amount, output.pubkey_hash))
  ]

  -- The loop over the inputs of `accept`: what flows in.
  unfoldable pub sum_inputs : Transaction → ℕ → Utxos → Mempool → ℕ → List TxIn → ℤ → Try ℤ
  sum_inputs tx next_height utxos pool index [] input_total = ok input_total
  sum_inputs tx next_height utxos pool index (i ∷ inputs) input_total = do
    raise_if (is_there (lookup i.prevout pool.spends)) (consensus_error double_spend)
    (amount, pubkey_hash) ← source_of next_height utxos pool i.prevout
    verified ← verify_input c tx index pubkey_hash amount
    raise_if (not verified) (consensus_error bad_signature)
    sum_inputs tx next_height utxos pool (suc index) inputs (input_total +ℤ amount)

  -- The part of `accept` that only looks.
  unfoldable pub admission : Transaction → ℕ → Utxos → Mempool → Try (Bytes × MempoolEntry)
  admission tx next_height utxos pool = do
    raise_if (is_coinbase tx) (consensus_error pooled_coinbase)
    check_structure tx
    id ← txid c tx
    raise_if (is_there (lookup id pool.entries)) (consensus_error already_pooled)
    input_total ← sum_inputs tx next_height utxos pool 0 tx.inputs (pos 0)
    raise_if (ltb_ℤ input_total (total_output_value tx)) (consensus_error outputs_exceed_inputs)
    size ← Codec.size tx
    ok (id, record { tx = tx; fee = input_total -ℤ total_output_value tx; size = size })

  unfoldable pub with_room : MempoolEntry → Mempool → Try Mempool
  with_room entry pool =
      if fits (pos 0) entry.size pool
      then ok pool
      else (make_room_for entry pool >>= λ room. or_raise room (consensus_error pool_full))

  -- `accept`, at the height above the tip and the chain's table of outputs: the fee and the pool.
  unfoldable pub accept : Transaction → ℕ → Utxos → Mempool → Try (ℤ × Mempool)
  accept tx next_height utxos pool = do
    (id, entry) ← admission tx next_height utxos pool
    pool' ← with_room entry pool
    ok (entry.fee, insert_entry id entry pool')

  -- One pass of `reconsider`: how many came back, and what still fails.
  unfoldable pub reconsider_pass :
      List Transaction → ℕ → Utxos → Mempool → Try ((ℕ × List Transaction) × Mempool)
  reconsider_pass [] next_height utxos pool = ok ((0, []), pool)
  reconsider_pass (tx ∷ pending) next_height utxos pool = elim (accept tx next_height utxos pool) [
    | ok (fee, pool') ↦ (do
      ((readmitted, failing), pool'') ← reconsider_pass pending next_height utxos pool'
      ok ((suc readmitted, failing), pool''))
    | err e ↦
        (if is_consensus e
          then (do
            ((readmitted, failing), pool'') ← reconsider_pass pending next_height utxos pool
            ok ((readmitted, tx ∷ failing), pool''))
          else err e)
  ]

  -- Rounds as long as something comes back; there are as many as transactions.
  unfoldable pub reconsider_loop : ℕ → List Transaction → ℕ → Utxos → Mempool → Try (ℕ × Mempool)
  reconsider_loop zero pending next_height utxos pool = ok (0, pool)
  reconsider_loop (suc rounds) pending next_height utxos pool = do
    ((readmitted, failing), pool') ← reconsider_pass pending next_height utxos pool
    if (length failing == 0) || (readmitted == 0) then ok (readmitted, pool') else (do
      (more, pool'') ← reconsider_loop rounds failing next_height utxos pool'
      ok (readmitted + more, pool''))

  unfoldable pub reconsider : List Transaction → ℕ → Utxos → Mempool → Try (ℕ × Mempool)
  reconsider txs next_height utxos pool = reconsider_loop (length txs) txs next_height utxos pool

  -- The rivals of a transaction of a block go, with their descendants.
  unfoldable pub evict_rivals : List TxIn → Mempool → Try Mempool
  evict_rivals [] pool = ok pool
  evict_rivals (i ∷ inputs) pool =
      (elim (lookup i.prevout pool.spends) [ none ↦ ok pool | some rival ↦ evict depth rival pool ])
      >>= λ pool'. evict_rivals inputs pool'

  -- `remove_confirmed`, over the transactions of the block.
  unfoldable pub remove_confirmed : List Transaction → Mempool → Try Mempool
  remove_confirmed [] pool = ok pool
  remove_confirmed (tx ∷ transactions) pool = do
    id ← txid c tx
    pool' ← evict_rivals tx.inputs (remove id pool)
    remove_confirmed transactions pool'

-- ===== src/Mempool/Runs.antt =====
-- A pool over the life of a node: what it is offered, what blocks settle, what a reorganization
-- gives back.
use obsidion.Prelude.{
  ℕ, zero, suc, ◌≡◌, refl, sym, ◌∙◌, ap, subst, true, List, [], ◌∷◌, Bytes, some, inl, inr, arith,
  Bool-cases, Option-cases, ◌||◌, ◌==◌, length,
}
use obsidion.Prelude.Int.{pos, ◌≤ℤ◌, int_laws, parts}
use obsidion.Prelude.Eq.{ℕ_eq, List_eq}
use obsidion.Prelude.Result.{ok, err, ◌>>=◌, >>=-eq-ok, ok-injective, Result-cases}
use obsidion.Errors.{Try}
use obsidion.Params.{NetworkParams}
use obsidion.Crypto.{Platform}
use obsidion.Table.{lookup}
use obsidion.Table.Sums.{total}
use obsidion.Transaction.Model.{OutPoint, OutPoint_eq, TxIn, Transaction}
use obsidion.Transaction.Signing.{txid}
use obsidion.Storage.{Utxos}
use obsidion.ChainState.Accept.{is_consensus}
use obsidion.Mempool.{
  MempoolEntry, Mempool, empty_pool, remove, evict, evict_rivals, remove_confirmed, accept,
  reconsider_pass, reconsider_loop, reconsider,
}
use obsidion.Mempool.Claims.{has_input}
use obsidion.Mempool.WellFormed.{size_of, WellFormed, some_same, remove-WellFormed, remove-Within}
use obsidion.Mempool.Eviction.{Shrinks, Shrinks-trans, evict-Shrinks}
use obsidion.Mempool.Budget.{AreIn-total, AreIn-itself}
use obsidion.Mempool.Admission.{IsSound, accept_lem}
use obsidion.Mempool.Room.{in_larger}

-- What a node tells its pool, with the height and the outputs of the chain at that time.
pub data Notice : Type 0 where
  offers : Transaction → ℕ → Utxos → Notice
  confirms : List Transaction → Notice
  gives_back : List Transaction → ℕ → Utxos → Notice

module _ (c : Platform) (p : NetworkParams) (max_size : ℕ) (depth : ℕ) where
  evict_rivals-Shrinks :
      (inputs : List TxIn) (pool pool' : Mempool)
      → WellFormed c pool
      → evict_rivals c p max_size depth inputs pool ≡ ok pool'
      → Shrinks c pool pool'
  unfolding evict_rivals
  evict_rivals-Shrinks [] pool pool' wf h =
      subst (λ z. Shrinks c pool z) (ok-injective h) (wf, λ id e found. found)
  evict_rivals-Shrinks (i ∷ inputs) pool pool' wf h =
      elim (Option-cases (lookup i.prevout pool.spends)) [
        | inl free ↦ evict_rivals-Shrinks inputs pool pool' wf (rw (evict_rivals, free) at h)
        | inr (rival, taken) ↦
            let h' : (evict depth rival pool >>= λ z. evict_rivals c p max_size depth inputs z)
                ≡ ok pool' =
              rw (evict_rivals, taken) at h in
            let (pool1, evicted, h1) = >>=-eq-ok (evict depth rival pool) _ h' in
            let one = (evict-Shrinks c depth rival pool pool1 wf evicted).0 in
            Shrinks-trans c pool pool1 pool' one (evict_rivals-Shrinks inputs pool1 pool' one.0 h1)
      ]

  remove_confirmed-Shrinks :
      (transactions : List Transaction) (pool pool' : Mempool)
      → WellFormed c pool
      → remove_confirmed c p max_size depth transactions pool ≡ ok pool'
      → Shrinks c pool pool'
  unfolding remove_confirmed
  remove_confirmed-Shrinks [] pool pool' wf h =
      subst (λ z. Shrinks c pool z) (ok-injective h) (wf, λ id e found. found)
  remove_confirmed-Shrinks (tx ∷ transactions) pool pool' wf h =
      let (id, _, h1) = >>=-eq-ok (txid c tx) _ h in
      let (pool1, cleared, h2) =
        >>=-eq-ok (evict_rivals c p max_size depth tx.inputs (remove id pool)) _ h1 in
      let removed : Shrinks c pool (remove id pool) =
        (remove-WellFormed c id pool wf, remove-Within c id pool) in
      let one = evict_rivals-Shrinks tx.inputs (remove id pool) pool1 removed.0 cleared in
      Shrinks-trans c pool pool1 pool' (Shrinks-trans c pool (remove id pool) pool1 removed one)
        (remove_confirmed-Shrinks transactions pool1 pool' one.0 h2)

  -- A pool that has lost entries takes up no more.
  Shrinks-sized :
      (pool pool' : Mempool)
      → WellFormed c pool
      → Shrinks c pool pool'
      → pool'.total_size ≤ℤ pool.total_size
  Shrinks-sized pool pool' wf (wf', within) =
      let small = AreIn-total pool.entries pool'.entries wf.keyed wf'.keyed (
        in_larger c p max_size depth pool pool' pool'.entries within
          (AreIn-itself pool'.entries wf'.keyed)) in
      let now = wf'.sized in
      let before = wf.sized in omega (int_laws, small, parts now, parts before)

  Shrinks-IsSound :
      (pool pool' : Mempool)
      → IsSound c p max_size depth pool
      → Shrinks c pool pool'
      → IsSound c p max_size depth pool'
  Shrinks-IsSound pool pool' (wf, bounded) shrinks =
      let small = Shrinks-sized pool pool' wf shrinks in
      (shrinks.0, omega (int_laws, small, bounded))

  reconsider_pass-IsSound :
      (pending : List Transaction) (next_height : ℕ) (utxos : Utxos) (pool pool' : Mempool)
      (result : ℕ × List Transaction)
      → IsSound c p max_size depth pool
      → reconsider_pass c p max_size depth pending next_height utxos pool ≡ ok (result, pool')
      → IsSound c p max_size depth pool'
  unfolding reconsider_pass
  reconsider_pass-IsSound [] next_height utxos pool pool' result sound h =
      subst (λ z. IsSound c p max_size depth z) (ap (λ z. z.1) (ok-injective h)) sound
  reconsider_pass-IsSound (tx ∷ pending) next_height utxos pool pool' result sound h =
      elim (Result-cases (accept c p max_size depth tx next_height utxos pool)) [
        | inl ((fee, pool1), admitted) ↦
            let (((readmitted, failing), pool2), rest, h1) =
              >>=-eq-ok (reconsider_pass c p max_size depth pending next_height utxos pool1) _
                (rw (reconsider_pass, admitted) at h) in
            let sound1 =
              (accept_lem c p max_size depth tx next_height utxos pool pool1 fee sound
                admitted).0 in
            subst (λ z. IsSound c p max_size depth z) (ap (λ z. z.1) (ok-injective h1))
              (reconsider_pass-IsSound pending next_height utxos pool1 pool2 (readmitted, failing)
                sound1 rest)
        | inr (e, refused) ↦ elim (Bool-cases (is_consensus e)) [
          | inl verdict ↦
              let (((readmitted, failing), pool2), rest, h1) =
                >>=-eq-ok (reconsider_pass c p max_size depth pending next_height utxos pool) _
                  (rw (reconsider_pass, refused, verdict) at h) in
              subst (λ z. IsSound c p max_size depth z) (ap (λ z. z.1) (ok-injective h1))
                (reconsider_pass-IsSound pending next_height utxos pool pool2 (readmitted, failing)
                  sound rest)
          | inr other ↦ let clash = rw (reconsider_pass, refused, other) at h in cc
        ]
      ]

  reconsider_loop-IsSound :
      (rounds : ℕ) (pending : List Transaction) (next_height : ℕ) (utxos : Utxos)
      (pool pool' : Mempool) (readmitted : ℕ)
      → IsSound c p max_size depth pool
      → reconsider_loop c p max_size depth rounds pending next_height utxos pool
        ≡ ok (readmitted, pool')
      → IsSound c p max_size depth pool'
  unfolding reconsider_loop
  reconsider_loop-IsSound zero pending next_height utxos pool pool' readmitted sound h =
      subst (λ z. IsSound c p max_size depth z) (ap (λ z. z.1) (ok-injective h)) sound
  reconsider_loop-IsSound (suc rounds) pending next_height utxos pool pool' readmitted sound h =
      let (((some_back, failing), pool1), passed, h1) =
        >>=-eq-ok (reconsider_pass c p max_size depth pending next_height utxos pool) _ h in
      let sound1 =
        reconsider_pass-IsSound pending next_height utxos pool pool1 (some_back, failing) sound
          passed in
      elim (Bool-cases ((length failing == 0) || (some_back == 0))) [
        | inl over ↦
            subst (λ z. IsSound c p max_size depth z) (ap (λ z. z.1) (ok-injective (rw over at h1)))
              sound1
        | inr again ↦
            let ((more, pool2), looped, h2) =
              >>=-eq-ok (reconsider_loop c p max_size depth rounds failing next_height utxos pool1)
                _ (rw again at h1) in
            subst (λ z. IsSound c p max_size depth z) (ap (λ z. z.1) (ok-injective h2))
              (reconsider_loop-IsSound rounds failing next_height utxos pool1 pool2 more sound1
                looped)
      ]

  abbrev pool_of : {A : Type 0} → Mempool → Try (A × Mempool) → Mempool
  pool_of pool (ok (a, pool')) = pool'
  pool_of pool (err e) = pool

  abbrev or_same : Mempool → Try Mempool → Mempool
  or_same pool (ok pool') = pool'
  or_same pool (err e) = pool

  unfoldable pub hear : Notice → Mempool → Mempool
  hear (offers tx next_height utxos) pool =
      pool_of pool (accept c p max_size depth tx next_height utxos pool)
  hear (confirms transactions) pool =
      or_same pool (remove_confirmed c p max_size depth transactions pool)
  hear (gives_back transactions next_height utxos) pool =
      pool_of pool (reconsider c p max_size depth transactions next_height utxos pool)

  unfoldable pub hear_all : List Notice → Mempool → Mempool
  hear_all [] pool = pool
  hear_all (notice ∷ notices) pool = hear_all notices (hear notice pool)

  hear-IsSound :
      (notice : Notice) (pool : Mempool)
      → IsSound c p max_size depth pool
      → IsSound c p max_size depth (hear notice pool)
  unfolding hear reconsider
  hear-IsSound (offers tx next_height utxos) pool sound =
      elim (Result-cases (accept c p max_size depth tx next_height utxos pool)) [
        | inl ((fee, pool'), done) ↦
            rw done
              ((accept_lem c p max_size depth tx next_height utxos pool pool' fee sound done).0)
        | inr (e, failed) ↦ rw failed sound
      ]
  hear-IsSound (confirms transactions) pool sound =
      elim (Result-cases (remove_confirmed c p max_size depth transactions pool)) [
        | inl (pool', done) ↦ rw done (
            Shrinks-IsSound pool pool' sound
              (remove_confirmed-Shrinks transactions pool pool' sound.0 done))
        | inr (e, failed) ↦ rw failed sound
      ]
  hear-IsSound (gives_back transactions next_height utxos) pool sound =
      elim (Result-cases (reconsider c p max_size depth transactions next_height utxos pool)) [
        | inl ((readmitted, pool'), done) ↦ rw done (
            reconsider_loop-IsSound (length transactions) transactions next_height utxos pool pool'
              readmitted sound done)
        | inr (e, failed) ↦ rw failed sound
      ]

  hear_all-IsSound :
      (notices : List Notice) (pool : Mempool)
      → IsSound c p max_size depth pool
      → IsSound c p max_size depth (hear_all notices pool)
  unfolding hear_all
  hear_all-IsSound [] pool sound = sound
  hear_all-IsSound (notice ∷ notices) pool sound =
      hear_all-IsSound notices (hear notice pool) (hear-IsSound notice pool sound)

  pub empty_pool-IsSound : IsSound c p max_size depth empty_pool
  unfolding lookup total
  empty_pool-IsSound = (
    record {
      keyed = tt;
      sized = refl;
      named = λ id entry h. cc;
      claimed = λ o id h. cc;
      claims = λ id entry o h e. cc;
    },
    omega (int_laws, arith),
  )

  -- Whatever a new pool hears, with the notices that raise leaving it as it is, two entries that
  -- spend one outpoint are the same.
  pub hear_all-no_double_spend :
      (notices : List Notice) (id other : Bytes) (entry rival : MempoolEntry) (o : OutPoint)
      → lookup id ((hear_all notices empty_pool).entries) ≡ some entry
      → lookup other ((hear_all notices empty_pool).entries) ≡ some rival
      → has_input o entry.tx.inputs ≡ true
      → has_input o rival.tx.inputs ≡ true
      → id ≡ other
  hear_all-no_double_spend notices id other entry rival o found found' mine theirs =
      let (wf, bounded) = hear_all-IsSound notices empty_pool empty_pool-IsSound in
      let first = wf.claims id entry o found mine in
      let second = wf.claims other rival o found' theirs in some_same (sym first ∙ second)

  -- Whatever a new pool hears, with the notices that raise leaving it as it is, its total size is
  -- the sum of its entries' sizes and at most the limit, and each entry stands under its own id.
  pub hear_all-sized :
      (notices : List Notice)
      → ((hear_all notices empty_pool).total_size
          ≡ total size_of ((hear_all notices empty_pool).entries))
        × ((hear_all notices empty_pool).total_size ≤ℤ pos max_size)
        × ((id : Bytes) (entry : MempoolEntry)
            → lookup id ((hear_all notices empty_pool).entries) ≡ some entry
            → txid c entry.tx ≡ ok id)
  hear_all-sized notices =
      let (wf, bounded) = hear_all-IsSound notices empty_pool empty_pool-IsSound in
      (wf.sized, bounded, wf.named)

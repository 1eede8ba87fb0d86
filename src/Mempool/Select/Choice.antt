-- ===== src/Mempool/Select/Choice.antt =====
-- What `select` chooses, and that it ends.
use obsidion.Prelude.{
  ℕ, zero, suc, ◌+◌, ◌≡◌, ◌≤◌, ◌<◌, refl, sym, ◌∙◌, ap, subst, ◌⊎◌, inl, inr, Bool, true, false,
  List, [], ◌∷◌, ◌++◌, Bytes, length, ltb, arith, All, Bool-cases, append_assoc, if◌then◌else◌,
}
use obsidion.Prelude.Eq.{ℕ_eq, List_eq, =?-refl}
use obsidion.Prelude.Result.{ok, err}
use obsidion.Errors.{Try}
use obsidion.Crypto.{Platform}
use obsidion.Transaction.Model.{OutPoint, TxOut}
use obsidion.Transaction.Signing.{txid}
use obsidion.Consensus.Rules.{has_id}
use obsidion.Storage.{Utxos}
use obsidion.Mempool.{MempoolEntry, Mempool, sort_by, insert_by, values}
use obsidion.Mempool.Select.{
  Selection, best_first, is_satisfiable, provide, choose, consider, select_round, select_loop,
  nothing_chosen, select,
}

abbrev pub size_sum : List MempoolEntry → ℕ
size_sum [] = 0
size_sum (e ∷ es) = e.size + size_sum es

size_sum-append : (xs ys : List MempoolEntry) → size_sum (xs ++ ys) ≡ size_sum xs + size_sum ys
size_sum-append [] ys = omega arith
size_sum-append (x ∷ xs) ys = omega (arith, size_sum-append xs ys)

abbrev pub provide_named : Try Bytes → List TxOut → List OutPoint → List OutPoint
provide_named (ok id) outputs provided = provide id 0 outputs provided
provide_named (err e) outputs provided = provided

module _ (c : Platform) (max_bytes : ℕ) (utxos : Utxos) where
  abbrev provided_after : List OutPoint → List MempoolEntry → List OutPoint
  provided_after provided [] = provided
  provided_after provided (e ∷ es) =
      provided_after (provide_named (txid c e.tx) e.tx.outputs provided) es

  -- Each entry spends the chain, or outputs of entries before it.
  abbrev pub IsInOrder : List OutPoint → List MempoolEntry → Type 0
  IsInOrder provided [] = Unit
  IsInOrder provided (e ∷ es) =
      (is_satisfiable utxos provided e.tx.inputs ≡ true)
      × IsInOrder (provide_named (txid c e.tx) e.tx.outputs provided) es

  IsInOrder-last :
      (provided : List OutPoint) (es : List MempoolEntry) (e : MempoolEntry)
      → IsInOrder provided es
      → is_satisfiable utxos (provided_after provided es) e.tx.inputs ≡ true
      → IsInOrder provided (es ++ e ∷ [])
  IsInOrder-last provided [] e ordered h = (h, tt)
  IsInOrder-last provided (x ∷ es) e (first, ordered) h =
      (first, IsInOrder-last (provide_named (txid c x.tx) x.tx.outputs provided) es e ordered h)

  provided_after-last :
      (provided : List OutPoint) (es : List MempoolEntry) (e : MempoolEntry)
      → provided_after provided (es ++ e ∷ [])
        ≡ provide_named (txid c e.tx) e.tx.outputs (provided_after provided es)
  provided_after-last provided [] e = refl
  provided_after-last provided (x ∷ es) e =
      provided_after-last (provide_named (txid c x.tx) x.tx.outputs provided) es e

  -- The variables are about the chosen entries.
  abbrev IsRight : Selection → Type 0
  IsRight s =
      (s.used ≡ size_sum s.chosen)
      × (s.used ≤ max_bytes)
      × IsInOrder [] s.chosen
      × (s.provided ≡ provided_after [] s.chosen)

  choose-IsRight :
      (id : Bytes) (entry : MempoolEntry) (s : Selection)
      → txid c entry.tx ≡ ok id
      → s.used + entry.size ≤ max_bytes
      → is_satisfiable utxos s.provided entry.tx.inputs ≡ true
      → IsRight s
      → IsRight (choose id entry s)
  choose-IsRight id entry s named fits ready (sum, bounded, ordered, provided) = (
    omega (arith, sum, size_sum-append s.chosen (entry ∷ [])),
    fits,
    IsInOrder-last [] s.chosen entry ordered
        (ap (λ z. is_satisfiable utxos z entry.tx.inputs) (sym provided) ∙ ready),
    ap (provide id 0 entry.tx.outputs) provided
        ∙ ap (λ z. provide_named z entry.tx.outputs (provided_after [] s.chosen)) (sym named)
        ∙ sym (provided_after-last [] s.chosen entry),
  )

  -- How many of the entries are not chosen yet.
  abbrev left_of : Try Bytes → List Bytes → ℕ
  left_of (ok id) ids = if has_id id ids then 0 else 1
  left_of (err e) ids = 0

  abbrev left : List Bytes → List MempoolEntry → ℕ
  left ids [] = 0
  left ids (e ∷ es) = left_of (txid c e.tx) ids + left ids es

  left_of-more :
      (m : Try Bytes) (id : Bytes) (ids : List Bytes) → left_of m (id ∷ ids) ≤ left_of m ids
  unfolding has_id
  left_of-more (err e) id ids = omega arith
  left_of-more (ok other) id ids = ground arith

  left-more :
      (id : Bytes) (ids : List Bytes) (es : List MempoolEntry) → left (id ∷ ids) es ≤ left ids es
  left-more id ids [] = omega arith
  left-more id ids (e ∷ es) = omega (arith, left_of-more (txid c e.tx) id ids, left-more id ids es)

  left-le : (ids : List Bytes) (es : List MempoolEntry) → left ids es ≤ length es
  left-le ids [] = omega arith
  left-le ids (e ∷ es) = omega (arith, at_most_one (txid c e.tx), left-le ids es)
    where
      at_most_one : (m : Try Bytes) → left_of m ids ≤ 1
      at_most_one (ok id) = ground arith
      at_most_one (err e) = omega arith

  left-less :
      (id : Bytes) (entry : MempoolEntry) (ids : List Bytes) (before after : List MempoolEntry)
      → txid c entry.tx ≡ ok id
      → has_id id ids ≡ false
      → left (id ∷ ids) (before ++ entry ∷ after) < left ids (before ++ entry ∷ after)
  unfolding has_id
  left-less id entry ids [] after named new =
      let now : left_of (txid c entry.tx) (id ∷ ids) ≡ 0 = rw (named, =?-refl id) refl in
      let was : left_of (txid c entry.tx) ids ≡ 1 = rw (named, new) refl in
      omega (arith, now, was, left-more id ids after)
  left-less id entry ids (e ∷ before) after named new =
      omega
        (arith, left_of-more (txid c e.tx) id ids, left-less id entry ids before after named new)

  -- What one entry does.
  abbrev Chosen : MempoolEntry → Selection → Selection → Type 0
  Chosen entry s s' =
      (id : Bytes) × (txid c entry.tx ≡ ok id)
      × (has_id id s.chosen_ids ≡ false)
      × (s.used + entry.size ≤ max_bytes)
      × (is_satisfiable utxos s.provided entry.tx.inputs ≡ true)
      × (s' ≡ choose id entry s)

  consider_lem :
      (entry : MempoolEntry) (id : Bytes) (s : Selection)
      → txid c entry.tx ≡ ok id
      → (consider c max_bytes utxos entry s ≡ ok (false, s))
        ⊎ ((s' : Selection) × (consider c max_bytes utxos entry s ≡ ok (true, s'))
            × Chosen entry s s')
  unfolding consider
  consider_lem entry id s named = elim (Bool-cases (has_id id s.chosen_ids)) [
    | inl there ↦ inl (rw (consider, named, there) refl)
    | inr new ↦ elim (Bool-cases (ltb max_bytes (s.used + entry.size))) [
      | inl large ↦ inl (rw (consider, named, new, large) refl)
      | inr small ↦ elim (Bool-cases (is_satisfiable utxos s.provided entry.tx.inputs)) [
        | inl ready ↦ inr (
          choose id entry s,
          rw (consider, named, new, small, ready) refl,
          (id, named, new, at_most (s.used + entry.size) small, ready, refl),
        )
        | inr unready ↦ inl (rw (consider, named, new, small, unready) refl)
      ]
    ]
  ]
    where
      at_most : (n : ℕ) → ltb max_bytes n ≡ false → n ≤ max_bytes
      at_most n h = ground arith

  -- What one round does, over the rest of the entries.
  abbrev Advances : Bool → List MempoolEntry → Selection → Selection → Type 0
  Advances progress ranked s s' =
      IsRight s'
      × (left s'.chosen_ids ranked ≤ left s.chosen_ids ranked)
      × (progress ≡ true → left s'.chosen_ids ranked < left s.chosen_ids ranked)

  AreNamed : List MempoolEntry → Type 0
  AreNamed es = All (λ e. (id : Bytes) × (txid c e.tx ≡ ok id)) es

  select_round_lem :
      (before rest : List MempoolEntry) (s : Selection)
      → AreNamed rest
      → IsRight s
      → (progress : Bool) × (s' : Selection) × (select_round c max_bytes utxos rest s
          ≡ ok (progress, s'))
        × Advances progress (before ++ rest) s s'
  unfolding select_round AreNamed
  select_round_lem before [] s named right = (false, s, refl, (right, omega arith, λ e. cc))
  select_round_lem before (entry ∷ rest) s ((id, name), named) right =
      let assoc : (before ++ entry ∷ []) ++ rest ≡ before ++ entry ∷ rest =
        append_assoc before (entry ∷ []) rest in
      elim (consider_lem entry id s name) [
        | inl skipped ↦
            let (progress, s', done, (right', fewer, strict)) =
              select_round_lem (before ++ entry ∷ []) rest s named right in
            (
              progress,
              s',
              rw (skipped, done) refl,
              subst (λ z. Advances progress z s s') assoc (right', fewer, strict),
            )
        | inr (s1, taken, (id1, name1, new, fits, ready, same)) ↦
            let right1 : IsRight s1 =
              subst IsRight (sym same) (choose-IsRight id1 entry s name1 fits ready right) in
            let (more, s', done, (right', fewer, strict)) =
              select_round_lem (before ++ entry ∷ []) rest s1 named right1 in
            let less : left s1.chosen_ids (before ++ entry ∷ rest)
                < left s.chosen_ids (before ++ entry ∷ rest) =
              subst
                (λ z.
                  left z.chosen_ids (before ++ entry ∷ rest)
                  < left s.chosen_ids (before ++ entry ∷ rest))
                (sym same) (left-less id1 entry s.chosen_ids before rest name1 new) in
            let fewer' : left s'.chosen_ids (before ++ entry ∷ rest)
                ≤ left s1.chosen_ids (before ++ entry ∷ rest) =
              subst (λ z. left s'.chosen_ids z ≤ left s1.chosen_ids z) assoc fewer in
            (
              true,
              s',
              rw (taken, done) refl,
              (right', omega (arith, less, fewer'), λ e. omega (arith, less, fewer')),
            )
      ]

  select_loop_lem :
      (rounds : ℕ) (ranked : List MempoolEntry) (s : Selection)
      → AreNamed ranked
      → IsRight s
      → left s.chosen_ids ranked < rounds
      → (chosen : List MempoolEntry) × (select_loop c max_bytes utxos rounds ranked s ≡ ok chosen)
        × (size_sum chosen ≤ max_bytes)
        × IsInOrder [] chosen
  unfolding select_loop
  select_loop_lem zero ranked s named right enough = absurd (omega (arith, enough))
  select_loop_lem (suc rounds) ranked s named right enough =
      let (progress, s', done, (right', fewer, strict)) =
        select_round_lem [] ranked s named right in
      elim (Bool-cases progress) [
        | inl again ↦
            let less = strict again in
            let (chosen, looped, fits, ordered) =
              select_loop_lem rounds ranked s' named right' (omega (arith, less, enough)) in
            (chosen, rw (done, again) looped, fits, ordered)
        | inr over ↦
            let (sum, bounded, ordered, provided) = right' in
            (s'.chosen, rw (done, over) refl, omega (arith, sum, bounded), ordered)
      ]

  insert_by-AreNamed :
      (x : MempoolEntry) (ys : List MempoolEntry)
      → (id : Bytes) × (txid c x.tx ≡ ok id)
      → AreNamed ys
      → AreNamed (insert_by best_first x ys)
  unfolding insert_by AreNamed
  insert_by-AreNamed x [] h hs = (h, tt)
  insert_by-AreNamed x (y ∷ ys) h (k, ks) = elim (Bool-cases (best_first x y)) [
    | inl e ↦ rw e (h, (k, ks))
    | inr e ↦ rw e (k, insert_by-AreNamed x ys h ks)
  ]

  sort_by-AreNamed : (es : List MempoolEntry) → AreNamed es → AreNamed (sort_by best_first es)
  unfolding sort_by AreNamed
  sort_by-AreNamed [] h = tt
  sort_by-AreNamed (e ∷ es) (h, hs) =
      insert_by-AreNamed e (sort_by best_first es) h (sort_by-AreNamed es hs)

  -- If the transactions of a pool have ids, `select` returns: the chosen entries fit in the given
  -- bytes, and, taken in their order, each one's inputs are in the chain or are outputs of those
  -- before it.
  pub select_lem :
      (pool : Mempool)
      → All (λ e. (id : Bytes) × (txid c e.tx ≡ ok id)) (values pool.entries)
      → (chosen : List MempoolEntry) × (select c max_bytes utxos pool ≡ ok chosen)
        × (size_sum chosen ≤ max_bytes)
        × IsInOrder [] chosen
  unfolding select AreNamed
  select_lem pool named =
      let ranked = sort_by best_first (values pool.entries) in
      select_loop_lem (suc (length ranked)) ranked nothing_chosen
        (sort_by-AreNamed (values pool.entries) named) (refl, omega arith, tt, refl)
        (omega (arith, left-le [] ranked))

-- ===== src/Consensus/Rules/Accepted.antt =====
-- What the checks of obsidion/consensus.py that need no chain have seen, when they return.
use obsidion.Prelude.{
  ℕ, ◌≡◌, ◌≢◌, ◌≤◌, refl, sym, ap, ◌∙◌, Bool, true, false, not, List, [], ◌∷◌, Bytes, ltb, ◌==◌,
  arith, All, Bool-cases, inl, inr,
}
use obsidion.Prelude.Eq.{◌=?◌, =?-eq, List_eq, ℕ_eq}
use obsidion.Prelude.Result.{ok, err, >>=-eq-ok, >>-eq-ok, raise_if, raise_if-eq-ok}
use obsidion.Errors.{
  Error, Try, value_error, consensus_error, orphan_error, struct_error, index_error,
  assertion_error, integrity_error, operational_error, key_error, runtime_error, out_of_fuel,
  except_value, extra_coinbase, first_not_coinbase, bad_transaction, block_too_large, repeated_txid,
  bad_merkle, wrong_merkle, malformed_bits, zero_target, insufficient_work,
}
use obsidion.Params.{NetworkParams}
use obsidion.Crypto.{Platform}
use obsidion.Transaction.Model.{Transaction, is_coinbase, check_structure}
use obsidion.Block.Compact.{compact_to_target}
use obsidion.Block.Model.{
  BlockHeader, Block, satisfies_pow, block_size, txids, computed_merkle_root,
}
use obsidion.Consensus.Rules.{
  check_header_pow, check_no_coinbase, check_coinbase_first, check_transactions, has_id,
  has_duplicates, check_block_structure,
}

except_value-eq-ok :
    {A : Type 0} (m : Try A) (e : Error) {a : A} → except_value m e ≡ ok a → m ≡ ok a
except_value-eq-ok (ok a) e h = h
except_value-eq-ok (err (value_error reason)) e h = cc
except_value-eq-ok (err (consensus_error reason)) e h = cc
except_value-eq-ok (err orphan_error) e h = cc
except_value-eq-ok (err struct_error) e h = cc
except_value-eq-ok (err index_error) e h = cc
except_value-eq-ok (err assertion_error) e h = cc
except_value-eq-ok (err integrity_error) e h = cc
except_value-eq-ok (err operational_error) e h = cc
except_value-eq-ok (err key_error) e h = cc
except_value-eq-ok (err runtime_error) e h = cc
except_value-eq-ok (err out_of_fuel) e h = cc

true_of_not : (b : Bool) → not b ≡ false → b ≡ true
true_of_not true h = refl
true_of_not false h = cc

le_of_ltb : (m n : ℕ) → ltb m n ≡ false → n ≤ m
le_of_ltb m n h = ground arith

-- One coinbase, and it comes first.
abbrev pub StartsWithCoinbase : List Transaction → Type 0
StartsWithCoinbase [] = ⊥
StartsWithCoinbase (tx ∷ transactions) =
    (is_coinbase tx ≡ true) × All (λ t. is_coinbase t ≡ false) transactions

abbrev pub AreDistinct : List Bytes → Type 0
AreDistinct [] = Unit
AreDistinct (id ∷ ids) = All (λ other. id ≢ other) ids × AreDistinct ids

check_no_coinbase_lem :
    (transactions : List Transaction) {u : Unit {0}}
    → check_no_coinbase transactions ≡ ok u
    → All (λ t. is_coinbase t ≡ false) transactions
unfolding check_no_coinbase
check_no_coinbase_lem [] h = tt
check_no_coinbase_lem (tx ∷ transactions) h =
    let (_, first, rest) =
      >>-eq-ok (raise_if (is_coinbase tx) (consensus_error extra_coinbase)) _ h in
    (raise_if-eq-ok _ _ first, check_no_coinbase_lem transactions rest)

check_coinbase_first_lem :
    (transactions : List Transaction) {u : Unit {0}}
    → check_coinbase_first transactions ≡ ok u
    → StartsWithCoinbase transactions
unfolding check_coinbase_first
check_coinbase_first_lem [] h = cc
check_coinbase_first_lem (tx ∷ transactions) h =
    let (_, first, rest) =
      >>-eq-ok (raise_if (not (is_coinbase tx)) (consensus_error first_not_coinbase)) _ h in
    (true_of_not _ (raise_if-eq-ok _ _ first), check_no_coinbase_lem transactions rest)

check_transactions_lem :
    (transactions : List Transaction) {u : Unit {0}}
    → check_transactions transactions ≡ ok u
    → All (λ t. check_structure t ≡ ok tt) transactions
unfolding check_transactions
check_transactions_lem [] h = tt
check_transactions_lem (tx ∷ transactions) h =
    let (_, first, rest) =
      >>-eq-ok (except_value (check_structure tx) (consensus_error bad_transaction)) _ h in
    (except_value-eq-ok _ _ first, check_transactions_lem transactions rest)

has_id_lem : (id : Bytes) (ids : List Bytes) → has_id id ids ≡ false → All (λ other. id ≢ other) ids
unfolding has_id
has_id_lem id [] h = tt
has_id_lem id (other ∷ ids) h = elim (Bool-cases (id =? other)) [
  | inl e ↦ let clash = rw e at h in cc
  | inr e ↦ (
    λ same. let clash = sym e ∙ (List_eq.beq_iff id other).1 same in cc,
    has_id_lem id ids (rw e at h),
  )
]

has_duplicates_lem : (ids : List Bytes) → has_duplicates ids ≡ false → AreDistinct ids
unfolding has_duplicates
has_duplicates_lem [] h = tt
has_duplicates_lem (id ∷ ids) h = elim (Bool-cases (has_id id ids)) [
  | inl e ↦ let clash = rw e at h in cc
  | inr e ↦ (has_id_lem id ids e, has_duplicates_lem ids (rw e at h))
]

check_header_pow_lem :
    (c : Platform) (header : BlockHeader) (p : NetworkParams) {u : Unit {0}}
    → check_header_pow c header p ≡ ok u
    → satisfies_pow c header p.pow_algorithm ≡ ok true
unfolding check_header_pow
check_header_pow_lem c header p h =
    let (target, _, h1) =
      >>=-eq-ok (except_value (compact_to_target header.bits) (consensus_error malformed_bits)) _
        h in
    let (_, _, h2) = >>-eq-ok (raise_if (target == 0) (consensus_error zero_target)) _ h1 in
    let (enough, answered, h3) = >>=-eq-ok (satisfies_pow c header p.pow_algorithm) _ h2 in
    let yes = raise_if-eq-ok (not enough) (consensus_error insufficient_work) h3 in
    answered ∙ ap ok (true_of_not enough yes)

-- If `check_block_structure` accepts a block, then its first transaction is a coinbase and no other
-- is, it is within the network's size, every transaction passes `check_structure`, the ids are
-- distinct, their Merkle root is the header's, and the header satisfies the proof of work.
pub check_block_structure_lem :
    (c : Platform) (block : Block) (p : NetworkParams)
    → check_block_structure c block p ≡ ok tt
    → StartsWithCoinbase block.transactions
      × All (λ t. check_structure t ≡ ok tt) block.transactions
      × ((size : ℕ) × (block_size block ≡ ok size) × (size ≤ p.max_block_weight))
      × ((ids : List Bytes) × (txids c block ≡ ok ids) × AreDistinct ids)
      × (computed_merkle_root c block ≡ ok block.header.merkle_root)
      × (satisfies_pow c block.header p.pow_algorithm ≡ ok true)
unfolding check_block_structure
check_block_structure_lem c block p h =
    let (_, coinbases, h1) = >>-eq-ok (check_coinbase_first block.transactions) _ h in
    let (size, sized, h2) = >>=-eq-ok (block_size block) _ h1 in
    let (_, fits, h3) =
      >>-eq-ok (raise_if (ltb p.max_block_weight size) (consensus_error block_too_large)) _ h2 in
    let (_, well, h4) = >>-eq-ok (check_transactions block.transactions) _ h3 in
    let (ids, named, h5) = >>=-eq-ok (txids c block) _ h4 in
    let (_, distinct, h6) =
      >>-eq-ok (raise_if (has_duplicates ids) (consensus_error repeated_txid)) _ h5 in
    let (computed, rooted, h7) =
      >>=-eq-ok (except_value (computed_merkle_root c block) (consensus_error bad_merkle)) _ h6 in
    let (_, same, h8) =
      >>-eq-ok
        (raise_if (not (computed =? block.header.merkle_root)) (consensus_error wrong_merkle)) _
        h7 in
    let small = raise_if-eq-ok _ _ fits in
    let differ = raise_if-eq-ok _ _ same in
    let root : computed ≡ block.header.merkle_root =
      =?-eq computed block.header.merkle_root (true_of_not _ differ) in
    (
      check_coinbase_first_lem block.transactions coinbases,
      check_transactions_lem block.transactions well,
      (size, sized, le_of_ltb p.max_block_weight size small),
      (ids, named, has_duplicates_lem ids (raise_if-eq-ok _ _ distinct)),
      except_value-eq-ok _ _ rooted ∙ ap ok root,
      check_header_pow_lem c block.header p h8,
    )

-- ===== src/Transaction/Model.antt =====
-- The structures of obsidion/transaction.py and the context-free rules.
use obsidion.Prelude.{
  ℕ, ◌*◌, Bool, true, false, ◌&&◌, not, List, [], ◌∷◌, Bytes, length, replicate, ltb, ◌==◌,
  if◌then◌else◌, ◌≡◌, ◌↔◌, arith,
}
use obsidion.Prelude.Int.{ℤ, pos, ◌+ℤ◌, ltb_ℤ}
use obsidion.Prelude.Eq.{Eq, ◌=?◌, List_eq, ℕ_eq, list_beq_iff}
use obsidion.Prelude.Result.{ok, ◌>>◌, raise_if}
use obsidion.Errors.{
  Try, value_error, no_inputs, no_outputs, negative_amount, amount_too_large, bad_hash_length,
  total_too_large, coinbase_data_too_long, duplicate_input, null_outpoint,
}

abbrev pub null_txid : Bytes
null_txid = replicate 32 0

abbrev pub coinbase_index : ℕ
coinbase_index = 0xFFFF_FFFF

abbrev pub sequence_final : ℕ
sequence_final = 0xFFFF_FFFF

abbrev pub max_money : ℕ
max_money = 21_000_000 * 100_000_000

abbrev pub max_coinbase_data : ℕ
max_coinbase_data = 100

pub record OutPoint : Type 0 where
  pub txid : Bytes
  pub index : ℕ

pub record TxIn : Type 0 where
  pub prevout : OutPoint
  pub signature : Bytes
  pub pubkey : Bytes
  pub sequence : ℕ

-- Python's `int` is signed, and "<q" reads signed amounts from the wire.
pub record TxOut : Type 0 where
  pub amount : ℤ
  pub pubkey_hash : Bytes

pub record Transaction : Type 0 where
  pub inputs : List TxIn
  pub outputs : List TxOut
  pub version : ℤ
  pub locktime : ℕ

-- `==` of the frozen dataclass.
abbrev outpoint_beq : OutPoint → OutPoint → Bool
outpoint_beq a b = (a.txid =? b.txid) && (a.index =? b.index)

pub outpoint_beq_iff : (a b : OutPoint) → (outpoint_beq a b ≡ true) ↔ (a ≡ b)
outpoint_beq_iff a b = ground (arith, list_beq_iff a.txid b.txid)

instance abbrev pub OutPoint_eq : Eq OutPoint
OutPoint_eq = record { beq = outpoint_beq; beq_iff = outpoint_beq_iff }

unfoldable pub is_coinbase_input : List TxIn → Bool
is_coinbase_input [] = false
is_coinbase_input (i ∷ []) = (i.prevout.txid =? null_txid) && (i.prevout.index =? coinbase_index)
is_coinbase_input (i ∷ j ∷ rest) = false

unfoldable pub is_coinbase : Transaction → Bool
unfolding is_coinbase_input
is_coinbase tx = is_coinbase_input tx.inputs

-- `sum(output.amount for output in outputs)`, which adds from the left.
unfoldable pub sum_amounts : ℤ → List TxOut → ℤ
sum_amounts total [] = total
sum_amounts total (o ∷ outputs) = sum_amounts (total +ℤ o.amount) outputs

unfoldable pub total_output_value : Transaction → ℤ
unfolding sum_amounts
total_output_value tx = sum_amounts (pos 0) tx.outputs

pub check_output : TxOut → Try Unit
check_output o = do
  raise_if (ltb_ℤ o.amount (pos 0)) (value_error negative_amount)
  raise_if (ltb_ℤ (pos max_money) o.amount) (value_error amount_too_large)
  raise_if (not (length o.pubkey_hash == 20)) (value_error bad_hash_length)

pub check_outputs : List TxOut → Try Unit
check_outputs [] = ok tt
check_outputs (o ∷ outputs) = do check_output o; check_outputs outputs

-- `prevout in seen`
unfoldable pub contains : OutPoint → List OutPoint → Bool
contains a [] = false
contains a (b ∷ seen) = if a =? b then true else contains a seen

pub check_inputs : List OutPoint → List TxIn → Try Unit
check_inputs seen [] = ok tt
check_inputs seen (i ∷ inputs) = do
  raise_if (contains i.prevout seen) (value_error duplicate_input)
  raise_if (i.prevout.txid =? null_txid) (value_error null_outpoint)
  check_inputs (i.prevout ∷ seen) inputs

-- The length of the first input's data; the caller has seen that there is one.
coinbase_data_length : List TxIn → ℕ
coinbase_data_length [] = 0
coinbase_data_length (i ∷ inputs) = length i.signature

is_empty : {A : Type 0} → List A → Bool
is_empty [] = true
is_empty (x ∷ xs) = false

unfoldable pub check_structure : Transaction → Try Unit
unfolding is_empty check_outputs check_output check_inputs contains coinbase_data_length
check_structure tx = do
  raise_if (is_empty tx.inputs) (value_error no_inputs)
  raise_if (is_empty tx.outputs) (value_error no_outputs)
  check_outputs tx.outputs
  raise_if (ltb_ℤ (pos max_money) (total_output_value tx)) (value_error total_too_large)
  if is_coinbase tx
      then raise_if (ltb max_coinbase_data (coinbase_data_length tx.inputs))
          (value_error coinbase_data_too_long)
      else check_inputs [] tx.inputs

-- ===== src/Transaction/Signing.antt =====
-- Transaction ids, signature hashes and signatures of obsidion/transaction.py.
pub mod Laws
pub mod Coinbase
pub mod Verify
use obsidion.Prelude.{
  ℕ, zero, suc, ◌+◌, ◌*◌, ◌^◌, Bool, true, false, not, ◌||◌, List, [], ◌∷◌, ◌++◌, Bytes, length,
  take, get_elem?, Option, none, some, ltb, ◌==◌, if◌then◌else◌,
}
use obsidion.Prelude.Int.{ℤ, pos}
use obsidion.Prelude.Eq.{◌=?◌, List_eq, ℕ_eq}
use obsidion.Prelude.Result.{ok, err, ◌>>=◌, ◌>>◌, raise_if}
use obsidion.Errors.{
  Try, value_error, index_error, coinbase_data_too_long, not_coinbase, short_coinbase,
}
use obsidion.Crypto.{Platform, sha256d, hash160, sign, verify}
use obsidion.Wire.{pack_unsigned, pack_signed, unpack_signed, join_map}
use obsidion.Transaction.Model.{
  OutPoint, TxIn, TxOut, Transaction, null_txid, coinbase_index, sequence_final, max_coinbase_data,
  is_coinbase,
}
use obsidion.Transaction.Codec.{serialize, serialize_outpoint, serialize_output}

-- `self.inputs[index] = ...` at an index in range.
unfoldable pub set_input : List TxIn → ℕ → TxIn → List TxIn
set_input [] index i = []
set_input (j ∷ inputs) zero i = i ∷ inputs
set_input (j ∷ inputs) (suc index) i = j ∷ set_input inputs index i

unfoldable pub is_empty : Bytes → Bool
is_empty [] = true
is_empty (b ∷ bytes) = false

module _ (c : Platform) where
  unfoldable pub txid : Transaction → Try Bytes
  txid tx = do raw ← serialize true tx; ok (sha256d c raw)

  -- The preimage of `signature_hash`, for the input at `index`.
  unfoldable pub signature_preimage : Transaction → ℕ → TxIn → ℤ → Bytes → Try Bytes
  signature_preimage tx index tx_input amount pubkey_hash = do
    prevouts ← join_map (λ i. serialize_outpoint i.prevout) tx.inputs
    sequences ← join_map (λ i. pack_unsigned 4 i.sequence) tx.inputs
    outputs ← join_map serialize_output tx.outputs
    version ← pack_signed 4 tx.version
    prevout ← serialize_outpoint tx_input.prevout
    value ← pack_signed 8 amount
    sequence ← pack_unsigned 4 tx_input.sequence
    locktime ← pack_unsigned 4 tx.locktime
    position ← pack_unsigned 4 index
    ok (
        version
        ++ (sha256d c prevouts
            ++ (sha256d c sequences
                ++ (prevout
                    ++ (pubkey_hash
                        ++ (value
                            ++ (sequence ++ (sha256d c outputs ++ (locktime ++ position)))))))))

  -- The digest, for the input that stands at `index`.
  unfoldable pub digest_at : Transaction → ℕ → ℤ → Bytes → Option TxIn → Try Bytes
  digest_at tx index amount pubkey_hash none = err index_error
  digest_at tx index amount pubkey_hash (some tx_input) = do
    preimage ← signature_preimage tx index tx_input amount pubkey_hash
    ok (sha256d c preimage)

  -- An index is a natural number here: the code calls this with positions in the list of inputs.
  unfoldable pub signature_hash : Transaction → ℕ → ℤ → Bytes → Try Bytes
  unfolding digest_at
  signature_hash tx index amount pubkey_hash =
      digest_at tx index amount pubkey_hash (get_elem? tx.inputs index)

  -- The input with its signature, or an untouched list where there is none.
  unfoldable pub signed_inputs : List TxIn → ℕ → Bytes → Bytes → Option TxIn → List TxIn
  signed_inputs inputs index signature pubkey none = inputs
  signed_inputs inputs index signature pubkey (some i) =
      set_input inputs index (record i { signature = signature; pubkey = pubkey })

  unfoldable pub sign_input : Transaction → ℕ → Bytes → Bytes → ℤ → Try Transaction
  unfolding signed_inputs
  sign_input tx index private_key public_key amount = do
    digest ← signature_hash tx index amount (hash160 c public_key)
    ok (record tx {
      inputs =
          signed_inputs tx.inputs index (sign c private_key digest) public_key
            (get_elem? tx.inputs index);
    })

  unfoldable pub verify_at : Transaction → ℕ → Bytes → ℤ → Option TxIn → Try Bool
  unfolding is_empty
  verify_at tx index pubkey_hash amount none = ok false
  verify_at tx index pubkey_hash amount (some i) =
      if is_empty i.signature || is_empty i.pubkey
      then ok false
      else if not (hash160 c i.pubkey =? pubkey_hash)
      then ok false
      else (do
        digest ← signature_hash tx index amount pubkey_hash
        ok (verify c i.pubkey i.signature digest))

  unfoldable pub verify_input : Transaction → ℕ → Bytes → ℤ → Try Bool
  unfolding verify_at
  verify_input tx index pubkey_hash amount =
      verify_at tx index pubkey_hash amount (get_elem? tx.inputs index)

-- `Transaction.coinbase`
unfoldable pub coinbase : ℤ → ℤ → Bytes → ℕ → Bytes → Try Transaction
coinbase height reward pubkey_hash extra_nonce message = do
  height_bytes ← pack_signed 4 height
  nonce_bytes ← pack_unsigned 8 extra_nonce
  let script = height_bytes ++ (nonce_bytes ++ message)
  raise_if (ltb max_coinbase_data (length script)) (value_error coinbase_data_too_long)
  ok (record {
    inputs =
        record {
          prevout = record { txid = null_txid; index = coinbase_index };
          signature = script;
          pubkey = [];
          sequence = sequence_final;
        }
        ∷ [];
    outputs = record { amount = reward; pubkey_hash = pubkey_hash } ∷ [];
    version = pos 1;
    locktime = 0;
  })

-- The data of the first input; the caller has seen that there is one.
first_signature : List TxIn → Bytes
first_signature [] = []
first_signature (i ∷ inputs) = i.signature

unfoldable pub encoded_height : Transaction → Try ℤ
unfolding first_signature
encoded_height tx = do
  raise_if (not (is_coinbase tx)) (value_error not_coinbase)
  let script = first_signature tx.inputs
  raise_if (ltb (length script) 4) (value_error short_coinbase)
  ok (unpack_signed 4 (take 4 script))

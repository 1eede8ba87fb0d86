-- ===== src/Transaction/Signing/Laws.antt =====
-- What signing changes and what it leaves alone; the height that a coinbase carries.
use obsidion.Prelude.{
  ℕ, zero, suc, ◌≡◌, ◌≢◌, refl, sym, ap, ◌∙◌, false, List, [], ◌∷◌, map, Bytes, get_elem?, Option,
  none, some, arith, Option-cases, inl, inr,
}
use native.Mathlib.Decide.{ℕ_discrete}
use obsidion.Prelude.Int.{ℤ}
use obsidion.Prelude.Eq.{List_eq, ℕ_eq}
use obsidion.Prelude.Result.{ok, >>=-eq-ok}
use obsidion.Errors.{Try}
use obsidion.Crypto.{Platform, hash160, sign}
use obsidion.Wire.{join_map, pack_unsigned}
use obsidion.Transaction.Model.{TxIn, Transaction, is_coinbase, is_coinbase_input}
use obsidion.Transaction.Codec.{blank, serialize, written_inputs, serialize_outpoint}
use obsidion.Transaction.Signing.{
  set_input, txid, signature_preimage, signature_hash, digest_at, signed_inputs, sign_input,
}

-- Two transactions that differ in signatures and public keys alone.
pub record SameButSignatures (a b : Transaction) : Type 0 where
  pub version : a.version ≡ b.version
  pub outputs : a.outputs ≡ b.outputs
  pub locktime : a.locktime ≡ b.locktime
  pub inputs : map blank a.inputs ≡ map blank b.inputs

-- Whether a transaction is a coinbase does not depend on the fields that are blanked.
is_coinbase_input-blank :
    (inputs : List TxIn) → is_coinbase_input (map blank inputs) ≡ is_coinbase_input inputs
unfolding is_coinbase_input blank
is_coinbase_input-blank [] = refl
is_coinbase_input-blank (i ∷ []) = refl
is_coinbase_input-blank (i ∷ j ∷ rest) = refl

pub is_coinbase-same : (a b : Transaction) → SameButSignatures a b → is_coinbase a ≡ is_coinbase b
unfolding is_coinbase
is_coinbase-same a b same =
    sym (is_coinbase_input-blank a.inputs)
    ∙ ap is_coinbase_input same.inputs
    ∙ is_coinbase_input-blank b.inputs

module _ (c : Platform) where
  -- Transactions that differ in signatures and public keys alone have the same id, unless they are
  -- coinbases.
  pub txid-same :
      (a b : Transaction) → is_coinbase a ≡ false → SameButSignatures a b → txid c a ≡ txid c b
  unfolding txid serialize written_inputs
  txid-same a b spends same =
      let spends' : is_coinbase b ≡ false = sym (is_coinbase-same a b same) ∙ spends in
      rw (spends, spends', same.version, same.outputs, same.locktime, same.inputs) refl

-- An input that gets a signature stays the same otherwise.
module _ {B : Type 0} (f : TxIn → B) where
  map-set_input :
      (inputs : List TxIn) (index : ℕ) (i j : TxIn)
      → get_elem? inputs index ≡ some i
      → f j ≡ f i
      → map f (set_input inputs index j) ≡ map f inputs
  unfolding set_input
  map-set_input [] index i j h e = refl
  map-set_input (x ∷ inputs) zero i j h e = ground arith
  map-set_input (x ∷ inputs) (suc index) i j h e =
      ap (λ l. f x ∷ l) (map-set_input inputs index i j h e)

join_map-map :
    {A B : Type 0} (f : A → B) (g : B → Try Bytes) (xs : List A)
    → join_map (λ x. g (f x)) xs ≡ join_map g (map f xs)
unfolding join_map
join_map-map f g [] = refl
join_map-map f g (x ∷ xs) = rw (join_map-map f g xs)

pub get_elem?-set_self :
    (inputs : List TxIn) (index : ℕ) (i j : TxIn)
    → get_elem? inputs index ≡ some i
    → get_elem? (set_input inputs index j) index ≡ some j
unfolding set_input
get_elem?-set_self [] index i j h = cc
get_elem?-set_self (x ∷ inputs) zero i j h = refl
get_elem?-set_self (x ∷ inputs) (suc index) i j h = get_elem?-set_self inputs index i j h

pub get_elem?-set_ne :
    (inputs : List TxIn) (index other : ℕ) (j : TxIn)
    → index ≢ other
    → get_elem? (set_input inputs index j) other ≡ get_elem? inputs other
unfolding set_input
get_elem?-set_ne [] index other j h = refl
get_elem?-set_ne (x ∷ inputs) zero zero j h = absurd (h refl)
get_elem?-set_ne (x ∷ inputs) zero (suc other) j h = refl
get_elem?-set_ne (x ∷ inputs) (suc index) zero j h = refl
get_elem?-set_ne (x ∷ inputs) (suc index) (suc other) j h =
    get_elem?-set_ne inputs index other j (λ e. h (ap suc e))

-- A transaction one of whose inputs got a signature.
module _ (tx : Transaction) (index : ℕ) (i : TxIn) (signature pubkey : Bytes) where
  abbrev pub signed : TxIn
  signed = record i { signature = signature; pubkey = pubkey }

  abbrev pub with_signature : Transaction
  with_signature = record tx { inputs = set_input tx.inputs index signed }

  module _ (found : get_elem? tx.inputs index ≡ some i) where
    with_signature-same : SameButSignatures with_signature tx
    unfolding blank
    with_signature-same = record {
      version = refl;
      outputs = refl;
      locktime = refl;
      inputs = map-set_input blank tx.inputs index i signed found refl;
    }

    prevouts_same :
        join_map (λ i. serialize_outpoint i.prevout) with_signature.inputs
        ≡ join_map (λ i. serialize_outpoint i.prevout) tx.inputs
    prevouts_same =
        join_map-map (λ (i : TxIn). i.prevout) serialize_outpoint with_signature.inputs
        ∙ ap (join_map serialize_outpoint)
            (map-set_input (λ i. i.prevout) tx.inputs index i signed found refl)
        ∙ sym (join_map-map (λ (i : TxIn). i.prevout) serialize_outpoint tx.inputs)

    sequences_same :
        join_map (λ i. pack_unsigned 4 i.sequence) with_signature.inputs
        ≡ join_map (λ i. pack_unsigned 4 i.sequence) tx.inputs
    sequences_same =
        join_map-map (λ (i : TxIn). i.sequence) (pack_unsigned 4) with_signature.inputs
        ∙ ap (join_map (pack_unsigned 4))
            (map-set_input (λ i. i.sequence) tx.inputs index i signed found refl)
        ∙ sym (join_map-map (λ (i : TxIn). i.sequence) (pack_unsigned 4) tx.inputs)

    module _ (c : Platform) (amount : ℤ) (pubkey_hash : Bytes) where
      preimage_same :
          (at : ℕ) (j : TxIn)
          → signature_preimage c with_signature at j amount pubkey_hash
            ≡ signature_preimage c tx at j amount pubkey_hash
      unfolding signature_preimage
      preimage_same at j = rw (prevouts_same, sequences_same) refl

      digest_same :
          (at : ℕ) (o : Option TxIn)
          → digest_at c with_signature at amount pubkey_hash o
            ≡ digest_at c tx at amount pubkey_hash o
      unfolding digest_at
      digest_same at none = refl
      digest_same at (some j) = rw (preimage_same at j) refl

      digest_of_signed :
          (at : ℕ)
          → digest_at c tx at amount pubkey_hash (some signed)
            ≡ digest_at c tx at amount pubkey_hash (some i)
      unfolding digest_at signature_preimage
      digest_of_signed at = refl

      -- The digest that is signed does not depend on signatures, for any input.
      pub signature_hash_same :
          (at : ℕ)
          → signature_hash c with_signature at amount pubkey_hash
            ≡ signature_hash c tx at amount pubkey_hash
      unfolding signature_hash
      signature_hash_same at = elim (ℕ_discrete index at) [
        | yes e ↦
            rw (← e, found, get_elem?-set_self tx.inputs index i signed found)
              (digest_same index (some signed) ∙ digest_of_signed index)
        | no e ↦ rw (get_elem?-set_ne tx.inputs index at signed e) (digest_same at _)
      ]

-- What `sign_input` returns: a transaction that differs in one input's signature and key.
pub sign_input_inversion :
    (c : Platform) (tx tx' : Transaction) (index : ℕ) (private_key public_key : Bytes) (amount : ℤ)
    → sign_input c tx index private_key public_key amount ≡ ok tx'
    → (i : TxIn) × (digest : Bytes) × (get_elem? tx.inputs index ≡ some i)
      × (signature_hash c tx index amount (hash160 c public_key) ≡ ok digest)
      × (tx' ≡ with_signature tx index i (sign c private_key digest) public_key)
unfolding sign_input signed_inputs signature_hash digest_at
sign_input_inversion c tx tx' index private_key public_key amount h =
    elim (Option-cases (get_elem? tx.inputs index)) [
      | inl missing ↦ ground arith
      | inr (i, found) ↦
          (let (digest, hashed, done) =
              >>=-eq-ok (signature_hash c tx index amount (hash160 c public_key)) _ h in
            (i, digest, found, hashed, ground arith))
    ]

-- Signing an input of a transaction that is not a coinbase leaves its id unchanged.
pub txid-sign_input :
    (c : Platform) (tx tx' : Transaction) (index : ℕ) (private_key public_key : Bytes) (amount : ℤ)
    → is_coinbase tx ≡ false
    → sign_input c tx index private_key public_key amount ≡ ok tx'
    → txid c tx' ≡ txid c tx
txid-sign_input c tx tx' index private_key public_key amount spends h =
    let (i, digest, found, _, e) =
      sign_input_inversion c tx tx' index private_key public_key amount h in
    let same = with_signature-same tx index i (sign c private_key digest) public_key found in
    rw e (txid-same c _ tx (is_coinbase-same _ tx same ∙ spends) same)

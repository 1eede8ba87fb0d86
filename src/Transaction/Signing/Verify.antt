-- ===== src/Transaction/Signing/Verify.antt =====
-- Verification of an input: what a positive answer rests on, and that signing earns it.
use obsidion.Prelude.{
  ℕ, ◌≡◌, ◌≢◌, refl, ap, true, false, Bytes, length, sym, ◌∙◌, get_elem?, Option, some, none, arith,
  Option-cases, Bool-cases, inl, inr, ◌||◌,
}
use mathlib.Core.Bool.{false≢true}
use obsidion.Prelude.Int.{ℤ}
use obsidion.Prelude.Eq.{=?-refl, =?-eq, List_eq, ℕ_eq, ◌=?◌}
use obsidion.Prelude.Result.{ok, >>=-eq-ok, ok-injective}
use obsidion.Crypto.{Platform, sha256d, hash160, sign, verify}
use obsidion.Transaction.Model.{TxIn, Transaction}
use obsidion.Transaction.Signing.{
  signature_hash, signature_preimage, digest_at, sign_input, verify_input, verify_at, is_empty,
}
use obsidion.Transaction.Signing.Laws.{
  with_signature, signed, get_elem?-set_self, get_elem?-set_ne, signature_hash_same,
  sign_input_inversion,
}

-- What the `ecdsa` package promises of a key pair: its signatures of 32-byte digests verify, and
-- none is empty.
pub record IsKeyPair (c : Platform) (private_key public_key : Bytes) : Type 0 where
  pub verifies :
      (digest : Bytes)
      → length digest ≡ 32
      → c.verify_digest public_key (c.sign_digest private_key digest) digest ≡ some true
  pub has_key : is_empty public_key ≡ false
  pub has_signature :
      (digest : Bytes) → length digest ≡ 32 → is_empty (c.sign_digest private_key digest) ≡ false

not_missing :
    (c : Platform) (tx : Transaction) (index : ℕ) (pubkey_hash : Bytes) (amount : ℤ)
    → ¬ (verify_at c tx index pubkey_hash amount none ≡ ok true)
unfolding verify_at
not_missing c tx index pubkey_hash amount h = cc

-- The tests of `verify_at`, one after the other.
verify_at_sound :
    (c : Platform) (tx : Transaction) (index : ℕ) (pubkey_hash : Bytes) (amount : ℤ) (i : TxIn)
    → verify_at c tx index pubkey_hash amount (some i) ≡ ok true
    → (digest : Bytes) × (hash160 c i.pubkey ≡ pubkey_hash)
      × (signature_hash c tx index amount pubkey_hash ≡ ok digest)
      × (verify c i.pubkey i.signature digest ≡ true)
unfolding verify_at
verify_at_sound c tx index pubkey_hash amount i h =
    elim (Bool-cases (is_empty i.signature || is_empty i.pubkey)) [
      | inl unsigned ↦ ground arith
      | inr a ↦ elim (Bool-cases (hash160 c i.pubkey =? pubkey_hash)) [
        | inl b ↦
            (let (digest, hashed, v) =
                >>=-eq-ok (signature_hash c tx index amount pubkey_hash) _ (rw (a, b) at h) in
              (digest, =?-eq (hash160 c i.pubkey) pubkey_hash b, hashed, cc))
        | inr b ↦ absurd (false≢true (ok-injective (rw (a, b) at h)))
      ]
    ]

-- If `verify_input` accepts, the input exists, its key hashes to the owner's hash, and its
-- signature verifies, under that key, against the digest of this input, amount and owner.
pub verify_input_sound :
    (c : Platform) (tx : Transaction) (index : ℕ) (pubkey_hash : Bytes) (amount : ℤ)
    → verify_input c tx index pubkey_hash amount ≡ ok true
    → (i : TxIn) × (digest : Bytes) × (get_elem? tx.inputs index ≡ some i)
      × (hash160 c i.pubkey ≡ pubkey_hash)
      × (signature_hash c tx index amount pubkey_hash ≡ ok digest)
      × (verify c i.pubkey i.signature digest ≡ true)
unfolding verify_input
verify_input_sound c tx index pubkey_hash amount h =
    elim (Option-cases (get_elem? tx.inputs index)) [
      | inl missing ↦ absurd (not_missing c tx index pubkey_hash amount (rw missing at h))
      | inr (i, found) ↦
          (let (digest, owner, hashed, v) =
              verify_at_sound c tx index pubkey_hash amount i (rw found at h) in
            (i, digest, found, owner, hashed, v))
    ]

verified :
    (c : Platform) (private_key public_key digest : Bytes)
    → IsKeyPair c private_key public_key
    → length digest ≡ 32
    → verify c public_key (sign c private_key digest) digest ≡ true
unfolding sign verify
verified c private_key public_key digest keys size = rw (keys.verifies digest size, verify) refl

-- What is signed is a hash.
signature_hash-length :
    (c : Platform) (tx : Transaction) (index : ℕ) (amount : ℤ) (pubkey_hash digest : Bytes)
    → ((x : Bytes) → length (c.sha256 x) ≡ 32)
    → signature_hash c tx index amount pubkey_hash ≡ ok digest
    → length digest ≡ 32
unfolding signature_hash digest_at sha256d
signature_hash-length c tx index amount pubkey_hash digest size h =
    elim (Option-cases (get_elem? tx.inputs index)) [
      | inl missing ↦ let clash = rw missing at h in cc
      | inr (i, found) ↦
          (let (preimage, _, e) =
              >>=-eq-ok (signature_preimage c tx index i amount pubkey_hash) _ (rw found at h) in
            ap length (sym (ok-injective e)) ∙ size (c.sha256 preimage))
    ]

module _ (c : Platform) (tx : Transaction) (index : ℕ) (private_key public_key : Bytes) (i : TxIn)
    (digest : Bytes) (found : get_elem? tx.inputs index ≡ some i) where
  abbrev result : Transaction
  result = with_signature tx index i (sign c private_key digest) public_key

  verify_at_same :
      (other : ℕ) (owner : Bytes) (value : ℤ) (o : Option TxIn)
      → verify_at c result other owner value o ≡ verify_at c tx other owner value o
  unfolding verify_at
  verify_at_same other owner value none = refl
  verify_at_same other owner value (some j) =
      rw
        (signature_hash_same tx index i (sign c private_key digest) public_key found c value owner
          other)
        refl

  accepts :
      (amount : ℤ)
      → IsKeyPair c private_key public_key
      → length digest ≡ 32
      → signature_hash c tx index amount (hash160 c public_key) ≡ ok digest
      → verify_at c result index
          (hash160 c public_key)
          amount
          (some (signed tx index i (sign c private_key digest) public_key))
        ≡ ok true
  unfolding verify_at sign
  accepts amount keys size hashed =
      rw
        (
          signature_hash_same tx index i (c.sign_digest private_key digest) public_key found c
              amount (hash160 c public_key) index,
          hashed,
          keys.has_key,
          keys.has_signature digest size,
          =?-refl (hash160 c public_key),
        )
        (ap ok (verified c private_key public_key digest keys size))

-- If SHA-256 gives 32 bytes and `sign_input` returns with a key pair that is not empty and whose
-- signatures of 32-byte digests verify and are not empty, the input verifies for the owner of the
-- key, at the amount that was signed, and any other input verifies, or does not, for any owner and amount as
-- before.
pub verify_input-sign_input :
    (c : Platform) (tx tx' : Transaction) (index : ℕ) (private_key public_key : Bytes) (amount : ℤ)
    (other : ℕ) (owner : Bytes) (value : ℤ)
    → ((x : Bytes) → length (c.sha256 x) ≡ 32)
    → IsKeyPair c private_key public_key
    → sign_input c tx index private_key public_key amount ≡ ok tx'
    → index ≢ other
    → (verify_input c tx' index (hash160 c public_key) amount ≡ ok true)
      × (verify_input c tx' other owner value ≡ verify_input c tx other owner value)
unfolding verify_input
verify_input-sign_input c tx tx' index private_key public_key amount other owner value hash_size
      keys h ne =
    let (i, digest, found, hashed, e) =
      sign_input_inversion c tx tx' index private_key public_key amount h in
    let script = sign c private_key digest in
    let size =
      signature_hash-length c tx index amount (hash160 c public_key) digest hash_size hashed in
    (
      rw (e, get_elem?-set_self tx.inputs index i (signed tx index i script public_key) found)
          (accepts c tx index private_key public_key i digest found amount keys size hashed),
      rw (e, get_elem?-set_ne tx.inputs index other (signed tx index i script public_key) ne)
          (verify_at_same c tx index private_key public_key i digest found other owner value
            (get_elem? tx.inputs other)),
    )

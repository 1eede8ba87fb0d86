-- ===== src/Transaction/Signing/Coinbase.antt =====
-- A coinbase carries its height.
use obsidion.Prelude.{
  ℕ, ◌≡◌, refl, sym, ap, ◌∙◌, true, false, [], ◌∷◌, ◌++◌, Bytes, length, length-append, take,
  take-append, ltb, arith,
}
use obsidion.Prelude.Int.{ℤ}
use obsidion.Prelude.Result.{ok, >>=-eq-ok, ok-injective, raise_if}
use obsidion.Wire.{pack_signed, pack_unsigned, unpack_signed}
use obsidion.Wire.Numbers.{unpack-pack_signed}
use obsidion.Transaction.Model.{Transaction, TxIn, is_coinbase, null_txid}
use obsidion.Transaction.Signing.{coinbase, encoded_height}

is_coinbase-null :
    (i : TxIn) (tx : Transaction)
    → tx.inputs ≡ i ∷ []
    → i.prevout ≡ record { txid = null_txid; index = 0xFFFF_FFFF }
    → is_coinbase tx ≡ true
unfolding is_coinbase
is_coinbase-null i tx e p = rw (e, p) refl

height_bytes :
    (height : ℤ) (raw rest : Bytes)
    → pack_signed 4 height ≡ ok raw
    → (unpack_signed 4 (take 4 (raw ++ rest)) ≡ height) × (ltb (length (raw ++ rest)) 4 ≡ false)
height_bytes height raw rest h =
    let (e, len) = unpack-pack_signed 4 height raw h in
    (
      ap (unpack_signed 4) (ap (λ n. take n (raw ++ rest)) (sym len) ∙ take-append raw rest) ∙ e,
      ground (arith, length-append raw rest),
    )

-- The transaction that `Transaction.coinbase` builds is a coinbase, and `encoded_height` reads back
-- the height that it was built for.
pub encoded_height-coinbase :
    (height reward : ℤ) (pubkey_hash : Bytes) (extra_nonce : ℕ) (message : Bytes) (tx : Transaction)
    → coinbase height reward pubkey_hash extra_nonce message ≡ ok tx
    → (is_coinbase tx ≡ true) × (encoded_height tx ≡ ok height)
unfolding coinbase encoded_height
encoded_height-coinbase height reward pubkey_hash extra_nonce message tx h =
    let (raw, packed, r1) = >>=-eq-ok (pack_signed 4 height) _ h in
    let (nonce, packed', r2) = >>=-eq-ok (pack_unsigned 8 extra_nonce) _ r1 in
    let (_, short, r3) =
      >>=-eq-ok (raise_if (ltb 100 (length (raw ++ (nonce ++ message)))) _) _ r2 in
    let built = ok-injective r3 in
    let (height_read, long) = height_bytes height raw (nonce ++ message) packed in
    let yes_coinbase : is_coinbase tx ≡ true = rw (← built) (is_coinbase-null _ _ refl refl) in
    (yes_coinbase, rw (yes_coinbase, ← built, long, height_read) refl)

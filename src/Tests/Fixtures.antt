-- ===== src/Tests/Fixtures.antt =====
-- The data of the tests: a small platform, transactions and a block.
use obsidion.Prelude.{
  ◌≡◌, arith, length, length-take, length-append, refl, ap, false, [], ◌∷◌, ◌++◌, some, Bytes, take,
  replicate,
}
use obsidion.Prelude.Int.{pos}
use obsidion.Prelude.Eq.{◌=?◌, =?-refl, ℕ_eq, List_eq}
use obsidion.Prelude.Result.{ok, err}
use obsidion.Errors.{Try}
use obsidion.Crypto.{Platform}
use obsidion.Transaction.Model.{
  OutPoint, TxIn, Transaction, null_txid, coinbase_index, sequence_final,
}
use obsidion.Transaction.Signing.Verify.{IsKeyPair}
use obsidion.Storage.{Utxos}
use obsidion.Transaction.Signing.{is_empty}

-- The value of a run that returns.
abbrev pub value : {A : Type 0} → A → Try A → A
value default (ok a) = a
value default (err e) = default

-- Digests of 32 and 20 bytes, and a signature that is the key and the digest.
abbrev pub platform : Platform
platform = record {
  sha256 = λ x. take 32 (x ++ replicate 32 0);
  ripemd160 = λ x. take 20 (x ++ replicate 20 0);
  scrypt = λ x. take 32 (x ++ replicate 32 0);
  verify_digest = λ key signature digest. some (signature =? (key ++ digest));
  sign_digest = λ key digest. key ++ digest;
}

abbrev pub key : Bytes
key = 7 ∷ 7 ∷ []

pub key-IsKeyPair : IsKeyPair platform key key
unfolding is_empty
key-IsKeyPair = record {
  verifies = λ digest size. ap some (=?-refl (key ++ digest));
  has_key = refl;
  has_signature = λ digest size. refl;
}

pub sha256_size : (x : Bytes) → length (platform.sha256 x) ≡ 32
sha256_size x =
    omega (arith, length-take 32 (x ++ replicate 32 0), length-append x (replicate 32 0))

abbrev pub owner : Bytes
owner = 7 ∷ 7 ∷ replicate 18 0

abbrev pub spent_id : Bytes
spent_id = replicate 32 9

abbrev pub funding : OutPoint
funding = record { txid = spent_id; index = 0 }

abbrev pub unsigned_input : TxIn
unsigned_input = record {
  prevout = funding;
  signature = [];
  pubkey = [];
  sequence = sequence_final;
}

abbrev pub unsigned_tx : Transaction
unsigned_tx = record {
  inputs = unsigned_input ∷ [];
  outputs = record { amount = pos 90; pubkey_hash = replicate 20 1 } ∷ [];
  version = pos 1;
  locktime = 0;
}

abbrev pub coinbase_tx : Transaction
coinbase_tx = record {
  inputs =
      record {
        prevout = record { txid = null_txid; index = coinbase_index };
        signature = 5 ∷ 0 ∷ 0 ∷ 0 ∷ 0 ∷ 0 ∷ 0 ∷ 0 ∷ [];
        pubkey = [];
        sequence = sequence_final;
      }
      ∷ [];
  outputs = record { amount = pos 5000000010; pubkey_hash = replicate 20 2 } ∷ [];
  version = pos 1;
  locktime = 0;
}

abbrev pub one_row : Utxos
one_row =
    (funding, record { amount = pos 100; pubkey_hash = owner; height = 1; is_coinbase = false })
    ∷ []

-- ===== src/Crypto.antt =====
-- The hashes and signatures of obsidion/crypto.py. `hashlib` and the `ecdsa` package are not part of
-- the repository: they are the fields of `Platform`.
use Prim.Native.String.{String}
use obsidion.Prelude.{ℕ, ◌+◌, ◌*◌, Bool, false, Option, none, some, [], ◌∷◌, Bytes, if◌then◌else◌}
use obsidion.Prelude.Eq.{◌=?◌, String_eq}
use obsidion.Prelude.Result.{ok, err}
use obsidion.Errors.{Try, value_error, unknown_algorithm}

pub record Platform : Type 0 where
  -- `hashlib.sha256(data).digest()`, and so on
  pub sha256 : Bytes → Bytes
  pub ripemd160 : Bytes → Bytes
  -- `hashlib.scrypt` with the cost parameters of `scrypt_pow`
  pub scrypt : Bytes → Bytes
  -- `VerifyingKey.from_string(key).verify_digest(signature, digest)`; `none` is an exception
  pub verify_digest : Bytes → Bytes → Bytes → Option Bool
  -- `SigningKey.from_string(key).sign_digest_deterministic(digest)`
  pub sign_digest : Bytes → Bytes → Bytes

module _ (c : Platform) where
  unfoldable pub sha256d : Bytes → Bytes
  sha256d input = c.sha256 (c.sha256 input)

  unfoldable pub hash160 : Bytes → Bytes
  hash160 input = c.ripemd160 (c.sha256 input)

  unfoldable pub scrypt_pow : Bytes → Bytes
  scrypt_pow header_bytes = c.scrypt header_bytes

  -- The table `POW_ALGORITHMS` and the lookup in it.
  unfoldable pub pow_hash : Bytes → String → Try Bytes
  unfolding sha256d scrypt_pow
  pow_hash header_bytes algorithm =
      if algorithm =? "scrypt-2mb"
      then ok (scrypt_pow header_bytes)
      else if algorithm =? "sha256d"
      then ok (sha256d header_bytes)
      else err (value_error unknown_algorithm)

  unfoldable pub sign : Bytes → Bytes → Bytes
  sign private_key digest = c.sign_digest private_key digest

  unfoldable pub verify : Bytes → Bytes → Bytes → Bool
  verify public_key signature digest = elim (c.verify_digest public_key signature digest) [
    | none ↦ false
    | some valid ↦ valid
  ]

-- `int.from_bytes(digest, "little")`
unfoldable pub hash_to_int : Bytes → ℕ
hash_to_int [] = 0
hash_to_int (b ∷ digest) = b + 256 * hash_to_int digest

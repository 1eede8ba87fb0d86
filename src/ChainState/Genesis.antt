-- ===== src/ChainState/Genesis.antt =====
-- obsidion/genesis.py: the block that every chain of a network starts with.
use obsidion.Prelude.{
  ℕ, zero, suc, ◌+◌, ◌^◌, not, [], ◌∷◌, Bytes, replicate, Option, none, some, ltb, if◌then◌else◌,
}
use obsidion.Prelude.Int.{pos}
use obsidion.Prelude.Result.{ok, err, ◌>>=◌, ◌>>◌, raise_if}
use obsidion.Errors.{Try, runtime_error, out_of_fuel}
use obsidion.Params.{NetworkParams}
use obsidion.Crypto.{Platform}
use obsidion.Transaction.Model.{Transaction}
use obsidion.Transaction.Signing.{txid, coinbase}
use obsidion.Merkle.{merkle_root}
use obsidion.Block.Model.{BlockHeader, Block, satisfies_pow, block_hash}
use obsidion.Consensus.Emission.{subsidy}

abbrev pub unspendable : Bytes
unspendable = replicate 20 0

unfoldable pub genesis_coinbase : NetworkParams → Try Transaction
genesis_coinbase p = do
  reward ← subsidy (pos 0) p
  coinbase (pos 0) (pos reward) unspendable 0 p.genesis_message

abbrev nonce_or_zero : Option ℕ → ℕ
nonce_or_zero none = 0
nonce_or_zero (some nonce) = nonce

unfoldable pub genesis_header : Platform → NetworkParams → Transaction → Try BlockHeader
genesis_header c p tx = do
  id ← txid c tx
  root ← merkle_root c (id ∷ [])
  ok (record {
    prev_hash = replicate 32 0;
    merkle_root = root;
    timestamp = p.genesis_timestamp;
    bits = p.pow_limit_bits;
    nonce = nonce_or_zero p.genesis_nonce;
    version = pos 1;
  })

-- `while not header.satisfies_pow(...)`. The nonce goes up and stops past 4 bytes, so a fuel of
-- 2 ^ 32 rounds and one more is enough.
unfoldable pub mine_loop : Platform → NetworkParams → ℕ → BlockHeader → Try BlockHeader
mine_loop c p zero header = err out_of_fuel
mine_loop c p (suc fuel) header = do
  enough ← satisfies_pow c header p.pow_algorithm
  let next : BlockHeader = record header { nonce = header.nonce + 1 }
  let rest = mine_loop c p fuel next
  if enough then ok header else (if ltb 0xFFFFFFFF next.nonce then err runtime_error else rest)

-- The stored nonce is only verified; without one it is searched.
unfoldable pub proven_header : Platform → NetworkParams → Option ℕ → BlockHeader → Try BlockHeader
proven_header c p (some nonce) header = do
  enough ← satisfies_pow c header p.pow_algorithm
  raise_if (not enough) runtime_error
  ok header
proven_header c p none header = mine_loop c p (2 ^ 32 + 1) header

unfoldable pub create_genesis_block : Platform → NetworkParams → Try Block
create_genesis_block c p = do
  tx ← genesis_coinbase p
  header ← genesis_header c p tx
  proven ← proven_header c p p.genesis_nonce header
  ok (record { header = proven; transactions = tx ∷ [] })

unfoldable pub genesis_hash : Platform → NetworkParams → Try Bytes
genesis_hash c p = do block ← create_genesis_block c p; block_hash c block

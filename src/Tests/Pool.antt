-- ===== src/Tests/Pool.antt =====
-- A transaction in the pool, and a rival.
use obsidion.Transaction.Codec.{
  serialize, serialize_parts, written_inputs, blank, serialize_input, serialize_outpoint,
  write_varbytes, serialize_output, size,
}
use obsidion.Wire.{pack_signed, pack_unsigned, join_map}
use obsidion.Transaction.Varint.{write_varint, with_marker}
use obsidion.Crypto.{hash160, sha256d, sign, verify}
use obsidion.Storage.{get_utxo}
use obsidion.Prelude.{
  ℕ, ◌≡◌, ◌<◌, refl, sym, ap, ◌∙◌, true, false, List, [], ◌∷◌, ◌++◌, Bytes, replicate, some, none,
  inl, inr, arith, Bool-cases, if◌then◌else◌,
}
use obsidion.Prelude.Int.{pos, ◌≤ℤ◌, ◌+ℤ◌, ◌-ℤ◌}
use obsidion.Prelude.Eq.{◌=?◌, ℕ_eq, List_eq, =?-eq}
use obsidion.Prelude.Result.{ok, err}
use obsidion.Errors.{consensus_error, double_spend}
use obsidion.Transaction.Model.{
  Transaction, is_coinbase, is_coinbase_input, check_structure, sum_amounts, total_output_value,
}
use obsidion.Mempool.Runs.{hear}
use obsidion.Params.{regtest}
use obsidion.Table.{lookup, put}
use obsidion.Table.Sums.{total}
use obsidion.Transaction.Model.{
  OutPoint, OutPoint_eq, is_coinbase, is_coinbase_input, check_structure, sum_amounts,
  total_output_value,
}
use obsidion.Transaction.Signing.{
  txid, signature_hash, signature_preimage, digest_at, set_input, sign_input, signed_inputs,
  verify_input, verify_at, is_empty,
}
use obsidion.Mempool.{
  MempoolEntry, Mempool, empty_pool, accept, evict, admission, sum_inputs, source_of, with_room,
  insert_entry, claim,
}
use obsidion.Mempool.Claims.{has_input}
use obsidion.Mempool.WellFormed.{size_of}
use obsidion.Mempool.Eviction.{Shrinks}
use obsidion.Mempool.Admission.{IsSound, accept_lem}
use obsidion.Mempool.Runs.{
  Notice, offers, confirms, hear_all, hear_all-no_double_spend, hear_all-sized, empty_pool-IsSound,
}
use obsidion.Mempool.Depth.{IsRanked, evict_returns}
use obsidion.Tests.Fixtures.{platform, funding, spent_id, unsigned_tx, one_row}
use obsidion.Tests.Spending.{signed_tx}

abbrev pooled_id : Bytes
pooled_id = (1 ∷ 0 ∷ 0 ∷ 0 ∷ 1 ∷ []) ++ replicate 27 9

abbrev entry : MempoolEntry
entry = record { tx = signed_tx; fee = pos 10; size = 116 }

abbrev pub pool : Mempool
pool = record {
  entries = (pooled_id, entry) ∷ [];
  total_size = pos 116;
  spends = (funding, pooled_id) ∷ [];
}

admitted : accept platform regtest 1000 900 signed_tx 6 one_row empty_pool ≡ ok (pos 10, pool)
unfolding accept obsidion.Mempool.admission obsidion.Transaction.Model.is_coinbase
    obsidion.Transaction.Model.is_coinbase_input obsidion.Transaction.Model.check_structure
    obsidion.Transaction.Model.sum_amounts obsidion.Transaction.Model.total_output_value
    obsidion.Prelude.Int.◌+ℤ◌ obsidion.Prelude.Int.◌-ℤ◌ txid obsidion.Transaction.Codec.serialize
    obsidion.Transaction.Codec.serialize_parts obsidion.Wire.pack_signed obsidion.Wire.pack_unsigned
    obsidion.Transaction.Varint.write_varint obsidion.Transaction.Varint.with_marker
    obsidion.Transaction.Codec.written_inputs obsidion.Transaction.Codec.blank
    obsidion.Wire.join_map obsidion.Transaction.Codec.serialize_input
    obsidion.Transaction.Codec.serialize_outpoint obsidion.Transaction.Codec.write_varbytes
    obsidion.Transaction.Codec.serialize_output obsidion.Transaction.Codec.size signed_tx
    obsidion.Transaction.Signing.signature_hash obsidion.Transaction.Signing.signature_preimage
    obsidion.Transaction.Signing.digest_at obsidion.Transaction.Signing.set_input
    obsidion.Transaction.Signing.sign_input obsidion.Transaction.Signing.signed_inputs
    obsidion.Crypto.hash160 obsidion.Crypto.sha256d obsidion.Crypto.sign obsidion.Crypto.verify
    obsidion.Transaction.Signing.verify_input obsidion.Transaction.Signing.verify_at
    obsidion.Transaction.Signing.is_empty lookup obsidion.Table.put obsidion.Mempool.sum_inputs
    obsidion.Mempool.source_of obsidion.Storage.get_utxo obsidion.Mempool.with_room
    obsidion.Mempool.insert_entry obsidion.Mempool.claim
admitted = refl

accept_lem_example :
    IsSound platform regtest 1000 900 pool
    × ((id : Bytes) × (entry' : MempoolEntry) × (txid platform signed_tx ≡ ok id)
        × (lookup id pool.entries ≡ some entry')
        × (entry'.tx ≡ signed_tx)
        × (entry'.fee ≡ pos 10))
    × (pos 0 ≤ℤ pos 10)
accept_lem_example =
    accept_lem platform regtest 1000 900 signed_tx 6 one_row empty_pool pool (pos 10)
      (empty_pool-IsSound platform regtest 1000 900) admitted

-- The rival is refused.
abbrev rival : Transaction
rival = record unsigned_tx { version = pos 2 }

refused : accept platform regtest 1000 900 rival 6 one_row pool ≡ err (consensus_error double_spend)
unfolding accept obsidion.Mempool.admission obsidion.Transaction.Model.is_coinbase
    obsidion.Transaction.Model.is_coinbase_input obsidion.Transaction.Model.check_structure
    obsidion.Transaction.Model.sum_amounts obsidion.Transaction.Model.total_output_value
    obsidion.Prelude.Int.◌+ℤ◌ txid obsidion.Transaction.Codec.serialize
    obsidion.Transaction.Codec.serialize_parts obsidion.Wire.pack_signed obsidion.Wire.pack_unsigned
    obsidion.Transaction.Varint.write_varint obsidion.Transaction.Varint.with_marker
    obsidion.Transaction.Codec.written_inputs obsidion.Transaction.Codec.blank
    obsidion.Wire.join_map obsidion.Transaction.Codec.serialize_input
    obsidion.Transaction.Codec.serialize_outpoint obsidion.Transaction.Codec.write_varbytes
    obsidion.Transaction.Codec.serialize_output lookup obsidion.Mempool.sum_inputs
    obsidion.Crypto.sha256d
refused = refl

abbrev notices : List Notice
notices = offers signed_tx 6 one_row ∷ offers rival 6 one_row ∷ []

heard : hear_all platform regtest 1000 900 notices empty_pool ≡ pool
unfolding hear_all obsidion.Mempool.Runs.hear
heard = rw (admitted, refused) refl

found :
    lookup pooled_id ((hear_all platform regtest 1000 900 notices empty_pool).entries) ≡ some entry
unfolding lookup
found = rw heard refl

spends_it : has_input funding entry.tx.inputs ≡ true
unfolding signed_tx obsidion.Transaction.Signing.signature_hash
    obsidion.Transaction.Signing.signature_preimage obsidion.Wire.join_map
    obsidion.Transaction.Codec.serialize_outpoint obsidion.Wire.pack_unsigned
    obsidion.Transaction.Codec.serialize_output obsidion.Wire.pack_signed
    obsidion.Transaction.Signing.set_input obsidion.Transaction.Signing.sign_input
spends_it = refl

hear_all-no_double_spend_example : pooled_id ≡ pooled_id
hear_all-no_double_spend_example =
    hear_all-no_double_spend platform regtest 1000 900 notices pooled_id pooled_id entry entry
      funding found found spends_it spends_it

hear_all-sized_example :
    ((hear_all platform regtest 1000 900 notices empty_pool).total_size
      ≡ total size_of ((hear_all platform regtest 1000 900 notices empty_pool).entries))
    × ((hear_all platform regtest 1000 900 notices empty_pool).total_size ≤ℤ pos 1000)
    × ((id : Bytes) (entry' : MempoolEntry)
        → lookup id ((hear_all platform regtest 1000 900 notices empty_pool).entries) ≡ some entry'
        → txid platform entry'.tx ≡ ok id)
hear_all-sized_example = hear_all-sized platform regtest 1000 900 notices

abbrev rank : Bytes → ℕ
rank id = if id =? spent_id then 1 else 0

ranked : IsRanked rank pool
unfolding lookup
ranked id child index taken = elim (Bool-cases (funding =? record { txid = id; index = index })) [
  | inl same ↦
      let at_id : spent_id ≡ id =
        ap (λ o. o.txid) (=?-eq funding (record { txid = id; index = index }) same) in
      let at_child : some pooled_id ≡ some child = rw same at taken in
      let is_child : pooled_id ≡ child = cc in rw (← at_id, ← is_child) (omega arith)
  | inr other ↦ let clash : none ≡ some child = rw other at taken in cc
]

evict_returns_example :
    (pool' : Mempool) × (evict 1 pooled_id pool ≡ ok pool')
    × Shrinks platform pool pool'
    × (lookup pooled_id pool'.entries ≡ none)
evict_returns_example =
    evict_returns platform rank 1 pooled_id pool (accept_lem_example.0.0) ranked (omega arith)

pub signed_id : txid platform signed_tx ≡ ok pooled_id
unfolding txid obsidion.Transaction.Model.is_coinbase obsidion.Transaction.Model.is_coinbase_input
    obsidion.Transaction.Codec.serialize obsidion.Transaction.Codec.serialize_parts
    obsidion.Wire.pack_signed obsidion.Wire.pack_unsigned obsidion.Transaction.Varint.write_varint
    obsidion.Transaction.Varint.with_marker obsidion.Transaction.Codec.written_inputs
    obsidion.Transaction.Codec.blank obsidion.Wire.join_map
    obsidion.Transaction.Codec.serialize_input obsidion.Transaction.Codec.serialize_outpoint
    obsidion.Transaction.Codec.write_varbytes obsidion.Transaction.Codec.serialize_output signed_tx
    obsidion.Transaction.Signing.signature_hash obsidion.Transaction.Signing.signature_preimage
    obsidion.Transaction.Signing.digest_at obsidion.Transaction.Signing.set_input
    obsidion.Transaction.Signing.sign_input obsidion.Transaction.Signing.signed_inputs
    obsidion.Crypto.hash160 obsidion.Crypto.sha256d obsidion.Crypto.sign
signed_id = refl

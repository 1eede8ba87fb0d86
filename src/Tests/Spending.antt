-- ===== src/Tests/Spending.antt =====
-- Runs that spend an output.
use obsidion.Prelude.{◌≡◌, refl, true, false, [], ◌∷◌, Bytes, replicate, get_elem?, some}
use obsidion.Prelude.Int.{pos, ◌+ℤ◌, ◌≤ℤ◌, ◌-ℤ◌}
use obsidion.Prelude.Result.{ok}
use obsidion.Params.{regtest}
use obsidion.Crypto.{hash160, verify, sha256d, sign}
use obsidion.Table.{lookup, delete, insert, put}
use obsidion.Table.Laws.{IsKeyed}
use obsidion.Transaction.Model.{
  TxIn, Transaction, OutPoint_eq, is_coinbase, is_coinbase_input, sum_amounts, total_output_value,
}
use obsidion.Transaction.Signing.{
  txid, sign_input, verify_input, signature_hash, set_input, signature_preimage, digest_at,
  is_empty, signed_inputs, verify_at,
}
use obsidion.Transaction.Signing.Laws.{txid-sign_input, txid-same, SameButSignatures}
use obsidion.Transaction.Signing.Verify.{verify_input_sound, verify_input-sign_input}
use obsidion.Block.Model.{Block, coinbase}
use obsidion.Consensus.Emission.{reward, era_reward, subsidy}
use obsidion.Storage.{sum_utxos, get_utxo, delete_utxo}
use obsidion.ChainState.Connect.{
  Progress, connect_utxos, connect_transactions, after_first, connect_transaction, connect_inputs,
  connect_input, add_outputs,
}
use obsidion.ChainState.Connect.Value.{connect_utxos-value}
use obsidion.Tests.Fixtures.{
  value, platform, key, key-IsKeyPair, sha256_size, owner, unsigned_tx, coinbase_tx, one_row,
}
use obsidion.Wire.{join_map, pack_signed, pack_unsigned}
use obsidion.Transaction.Codec.{
  blank, serialize_outpoint, serialize_output, serialize, serialize_input, serialize_parts,
  write_varbytes, written_inputs,
}
use obsidion.ChainState.Undo.{pack_string, pack_undo}
use obsidion.Consensus.Rules.{check_coinbase_reward}
use obsidion.Transaction.Varint.{with_marker, write_varint}

unfoldable pub signed_tx : Transaction
unfolding sign_input
signed_tx = value unsigned_tx (sign_input platform unsigned_tx 0 key key (pos 100))

was_signed : sign_input platform unsigned_tx 0 key key (pos 100) ≡ ok signed_tx
unfolding sign_input signed_tx signature_hash signature_preimage join_map serialize_outpoint
    pack_unsigned serialize_output pack_signed
was_signed = refl

not_coinbase : is_coinbase unsigned_tx ≡ false
unfolding is_coinbase
not_coinbase = refl

txid-sign_input_example : txid platform signed_tx ≡ txid platform unsigned_tx
txid-sign_input_example =
    txid-sign_input platform unsigned_tx signed_tx 0 key key (pos 100) not_coinbase was_signed

same : SameButSignatures unsigned_tx signed_tx
unfolding signed_tx signature_hash signature_preimage join_map serialize_outpoint pack_unsigned
    serialize_output pack_signed set_input sign blank
same = record { version = refl; outputs = refl; locktime = refl; inputs = refl }

txid-same_example : txid platform unsigned_tx ≡ txid platform signed_tx
txid-same_example = txid-same platform unsigned_tx signed_tx not_coinbase same

verify_input-sign_input_example :
    (verify_input platform signed_tx 0 (hash160 platform key) (pos 100) ≡ ok true)
    × (verify_input platform signed_tx 1 owner (pos 3)
        ≡ verify_input platform unsigned_tx 1 owner (pos 3))
verify_input-sign_input_example =
    verify_input-sign_input platform unsigned_tx signed_tx 0 key key (pos 100) 1 owner (pos 3)
      sha256_size key-IsKeyPair was_signed (λ h. cc)

accepted : verify_input platform signed_tx 0 owner (pos 100) ≡ ok true
unfolding verify_input signed_tx signature_hash signature_preimage join_map serialize_outpoint
    pack_unsigned serialize_output pack_signed set_input sign hash160 verify sha256d
accepted = refl

verify_input_sound_example :
    (i : TxIn) × (digest : Bytes) × (get_elem? signed_tx.inputs 0 ≡ some i)
    × (hash160 platform i.pubkey ≡ owner)
    × (signature_hash platform signed_tx 0 (pos 100) owner ≡ ok digest)
    × (verify platform i.pubkey i.signature digest ≡ true)
verify_input_sound_example = verify_input_sound platform signed_tx 0 owner (pos 100) accepted

abbrev pub block : Block
block = record {
  header = record {
    version = pos 1;
    prev_hash = replicate 32 3;
    merkle_root = replicate 32 4;
    timestamp = 1000;
    bits = 0x207FFFFF;
    nonce = 6;
  };
  transactions = coinbase_tx ∷ signed_tx ∷ [];
}

unfoldable pub connected : Progress
unfolding connect_utxos
connected =
    value (record { utxos = []; undo_entries = []; amount = pos 0 })
      (connect_utxos platform regtest 5 block one_row)

pub connects : connect_utxos platform regtest 5 block one_row ≡ ok connected
unfolding connect_utxos connected connect_transactions after_first connect_transaction
    connect_inputs signed_tx signature_hash signature_preimage join_map serialize_outpoint
    pack_unsigned serialize_output pack_signed set_input connect_input get_utxo lookup verify_input
    coinbase add_outputs pack_string pack_undo era_reward reward subsidy check_coinbase_reward
    hash160 sha256d sign verify ◌+ℤ◌ ◌-ℤ◌ delete_utxo delete insert put blank serialize
    serialize_input serialize_parts write_varbytes written_inputs is_coinbase is_coinbase_input
    sum_amounts total_output_value digest_at is_empty sign_input signed_inputs txid verify_at
    with_marker write_varint
connects = refl

one_row-IsKeyed : IsKeyed one_row
unfolding lookup
one_row-IsKeyed = (refl, tt)

connect_utxos-value_example :
    IsKeyed connected.utxos
    × (sum_utxos connected.utxos ≤ℤ sum_utxos one_row +ℤ pos (reward 5 regtest))
connect_utxos-value_example =
    connect_utxos-value platform regtest 5 block one_row connected one_row-IsKeyed connects

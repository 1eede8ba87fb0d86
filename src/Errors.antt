-- ===== src/Errors.antt =====
-- The exceptions of the program, as values. The message of an exception is only read by people, so
-- a constructor stands for the place that raises it.
use obsidion.Prelude.Result.{Result, ok, err}

-- `ValueError`.
pub data ValueReason : Type 0 where
  negative_height no_timestamps : ValueReason
  negative_compact target_overflow negative_target : ValueReason
  varint_negative varint_too_large truncated_varint truncated_payload truncated : ValueReason
  bad_hash_length bad_header_length trailing_bytes : ValueReason
  no_inputs no_outputs negative_amount amount_too_large total_too_large : ValueReason
  coinbase_data_too_long duplicate_input null_outpoint not_coinbase short_coinbase : ValueReason
  no_txids duplicate_pair unknown_algorithm no_transactions : ValueReason
  already_assigned another_amount no_receipt already_acted_on unresolved unexpected_state :
      ValueReason

-- `consensus.ConsensusError`.
pub data ConsensusReason : Type 0 where
  empty_block first_not_coinbase extra_coinbase block_too_large repeated_txid : ConsensusReason
  bad_transaction bad_merkle wrong_merkle : ConsensusReason
  malformed_bits zero_target insufficient_work : ConsensusReason
  excess_reward no_encoded_height wrong_height : ConsensusReason
  early_timestamp late_timestamp wrong_bits : ConsensusReason
  previously_rejected invalid_parent : ConsensusReason
  missing_output immature_coinbase bad_signature outputs_exceed_inputs overwrites_output :
      ConsensusReason
  pooled_coinbase already_pooled double_spend unknown_output pool_full : ConsensusReason

-- `orphan_error` is `chainstate.OrphanError`, a subclass of `ConsensusError`.
pub data Error : Type 0 where
  value_error : ValueReason → Error
  consensus_error : ConsensusReason → Error
  orphan_error : Error
  struct_error index_error assertion_error integrity_error operational_error key_error
        runtime_error :
      Error
  -- No exception of the program: a loop of the model has run out of its fuel.
  out_of_fuel : Error

abbrev pub Try : Type 0 → Type 0
Try A = Result Error A

-- `try: m except ValueError: raise e`
abbrev pub except_value : {A : Type 0} → Try A → Error → Try A
except_value (ok a) e = ok a
except_value (err (value_error reason)) e = err e
except_value (err other) e = err other

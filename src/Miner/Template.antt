-- ===== src/Miner/Template.antt =====
-- A template meets the rules that depend on the chain.
use obsidion.Prelude.{
  ℕ, suc, ◌+◌, ◌≡◌, ◌≤◌, refl, sym, ap, ◌∙◌, subst, true, false, List, [], ◌∷◌, ◌++◌, length, map,
  Bytes, Option, some, max, arith, ltb, leb, ◌==◌, ==_iff,
}
use obsidion.Prelude.Int.{ℤ, pos, ◌+ℤ◌, int_laws, ltb_ℤ, eqb_ℤ}
use obsidion.Prelude.Result.{
  ok, >>=-eq-ok, >>-eq-ok, ok-injective, or_raise, or_raise-eq-ok, raise_if,
}
use obsidion.Errors.{orphan_error}
use obsidion.Params.{NetworkParams}
use obsidion.Crypto.{Platform}
use obsidion.Transaction.Model.{Transaction, total_output_value, sum_amounts}
use obsidion.Wire.{pack_signed, pack_unsigned}
use obsidion.Transaction.Model.{max_coinbase_data}
use obsidion.Errors.{value_error, coinbase_data_too_long}
use obsidion.Transaction.Signing.{encoded_height}
use obsidion.Transaction.Signing
use obsidion.Transaction.Signing.Coinbase.{encoded_height-coinbase}
use obsidion.Merkle.{merkle_root}
use obsidion.Block.Model.{
  BlockHeader, Block, txids_of, txids, coinbase, first, claimed_height, computed_merkle_root,
}
use obsidion.Consensus.Emission.{subsidy}
use obsidion.Consensus.Difficulty.{median_time_past}
use obsidion.Consensus.Rules.{
  check_coinbase_reward, check_coinbase_height, check_floor, check_timestamp, check_expected_bits,
}
use obsidion.Storage.{IndexEntry, ChainDb, get_index}
use obsidion.ChainState.Reorg.{
  tip_entry, recent_timestamps, min_timestamp_for_next, expected_bits_for_next,
}
use obsidion.ChainState.Accept.{check_context}
use obsidion.Mempool.{MempoolEntry, Mempool}
use obsidion.Miner.{sum_fees, entries_for, build_template}

-- A timestamp above the median passes the floor.
check_floor_lem :
    (header : BlockHeader) (recent : List ℕ) (median : ℕ)
    → median_time_past recent ≡ ok median
    → median + 1 ≤ header.timestamp
    → check_floor header recent ≡ ok tt
unfolding check_floor
check_floor_lem header [] median h late = refl
check_floor_lem header (t ∷ recent) median h late =
    let above : leb header.timestamp median ≡ false = ground arith in rw (h, above) refl

check_timestamp_lem :
    (p : NetworkParams) (header : BlockHeader) (recent : List ℕ) (median now : ℕ)
    → median_time_past recent ≡ ok median
    → median + 1 ≤ header.timestamp
    → header.timestamp ≤ now + p.max_future_block_time
    → check_timestamp header recent now p ≡ ok tt
unfolding check_timestamp
check_timestamp_lem p header recent median now h late early =
    let passes = check_floor_lem header recent median h late in
    let soon : ltb (now + p.max_future_block_time) header.timestamp ≡ false = ground arith in
    rw (passes, soon) refl

pays :
    (height reward : ℤ) (pubkey_hash : Bytes) (extra_nonce : ℕ) (message : Bytes) (tx : Transaction)
    → Signing.coinbase height reward pubkey_hash extra_nonce message ≡ ok tx
    → total_output_value tx ≡ reward
unfolding Signing.coinbase total_output_value sum_amounts
pays height reward pubkey_hash extra_nonce message tx h =
    let (height_bytes, _, h1) = >>=-eq-ok (pack_signed 4 height) _ h in
    let (nonce_bytes, _, h2) = >>=-eq-ok (pack_unsigned 8 extra_nonce) _ h1 in
    let (_, _, h3) =
      >>-eq-ok
        (raise_if (ltb max_coinbase_data (length (height_bytes ++ (nonce_bytes ++ message))))
          (value_error coinbase_data_too_long))
        _ h2 in
    sym (ap (λ z. sum_amounts (pos 0) z.outputs) (ok-injective h3)) ∙ zero_left reward
  where
    zero_left : (a : ℤ) → pos 0 +ℤ a ≡ a
    zero_left a = omega int_laws

-- The block that a template's parts make.
abbrev template : Bytes → Bytes → ℕ → ℕ → Transaction → List Transaction → Block
template prev_hash root timestamp bits tx rest = record {
  header = record {
    prev_hash = prev_hash;
    merkle_root = root;
    timestamp = timestamp;
    bits = bits;
    nonce = 0;
    version = pos 1;
  };
  transactions = tx ∷ rest;
}

eqb_ℤ_refl : (a : ℤ) → eqb_ℤ a a ≡ true
eqb_ℤ_refl a = ground arith

eqb_refl : (n : ℕ) → (n == n) ≡ true
eqb_refl n = (==_iff n n).1 refl

height_passes :
    (b : Block) (height : ℕ)
    → claimed_height b ≡ ok (pos height)
    → check_coinbase_height b height ≡ ok tt
unfolding check_coinbase_height
height_passes b height h = rw (h, eqb_ℤ_refl (pos height)) refl

bits_pass :
    (header : BlockHeader) (bits : ℕ) → header.bits ≡ bits → check_expected_bits header bits ≡ ok tt
unfolding check_expected_bits
bits_pass header bits h = rw (h, eqb_refl bits) refl

reward_passes :
    (p : NetworkParams) (b : Block) (height due : ℕ) (fees : ℤ) (tx : Transaction)
    → subsidy (pos height) p ≡ ok due
    → coinbase b ≡ ok tx
    → total_output_value tx ≡ pos due +ℤ fees
    → check_coinbase_reward b height fees p ≡ ok tt
unfolding check_coinbase_reward
reward_passes p b height due fees tx due_is coinbase_is paid =
    let enough : ltb_ℤ (pos due +ℤ fees) (total_output_value tx) ≡ false =
      rw paid (not_below (pos due +ℤ fees)) in
    rw (due_is, coinbase_is, enough) refl
  where
    not_below : (a : ℤ) → ltb_ℤ a a ≡ false
    not_below a = ground arith

starts_with :
    (b : Block) (tx : Transaction) (rest : List Transaction)
    → b.transactions ≡ tx ∷ rest
    → coinbase b ≡ ok tx
unfolding coinbase first
starts_with b tx rest h = ap first h

module _ (c : Platform) (p : NetworkParams) where
  floor_lem :
      (db : ChainDb) (parent : IndexEntry) (floor : ℕ)
      → get_index parent.hash db ≡ some parent
      → min_timestamp_for_next p parent.hash db ≡ ok floor
      → (median : ℕ) × (median_time_past (recent_timestamps p parent db) ≡ ok median)
        × (median + 1 ≡ floor)
  unfolding min_timestamp_for_next
  floor_lem db parent floor indexed h =
      let (parent', at_parent, h1) =
        >>=-eq-ok (or_raise (get_index parent.hash db) orphan_error) _ h in
      let same : some parent' ≡ some parent = sym (or_raise-eq-ok _ _ at_parent) ∙ indexed in
      let (median, middle, h2) =
        >>=-eq-ok (median_time_past (recent_timestamps p parent' db)) _ h1 in
      let here : parent' ≡ parent = cc in
      (
        median,
        subst (λ z. median_time_past (recent_timestamps p z db) ≡ ok median) here middle,
        ok-injective h2,
      )

  parts_meet :
      (db : ChainDb) (parent : IndexEntry) (b : Block) (now bits : ℕ) (tx : Transaction)
      (rest : List Transaction) (median : ℕ)
      → b.header.bits ≡ bits
      → b.transactions ≡ tx ∷ rest
      → encoded_height tx ≡ ok (pos (suc parent.height))
      → expected_bits_for_next p parent.hash db ≡ ok bits
      → median_time_past (recent_timestamps p parent db) ≡ ok median
      → median + 1 ≤ b.header.timestamp
      → b.header.timestamp ≤ now + p.max_future_block_time
      → check_context c p b parent now db ≡ ok tt
  unfolding check_context claimed_height
  parts_meet db parent b now bits tx rest median bits_are starts height expected middle late early =
      let claims : claimed_height b ≡ ok (pos (suc parent.height)) =
        rw (starts_with b tx rest starts) height in
      let first = height_passes b (suc parent.height) claims in
      let second = bits_pass b.header bits bits_are in
      let third =
        check_timestamp_lem p b.header (recent_timestamps p parent db) median now middle late
          early in
      rw (first, expected, second) third

  roots :
      (b : Block) (ids : List Bytes) {root : Bytes}
      → txids_of c b.transactions ≡ ok ids
      → merkle_root c ids ≡ ok root
      → computed_merkle_root c b ≡ ok root
  unfolding computed_merkle_root txids
  roots b ids named rooted = rw named rooted

  -- If the tip stands in the index under its own hash, and `build_template` returns a block whose
  -- timestamp is not too far ahead, then the block meets the rules that depend on the chain (its
  -- height, its bits and its timestamp), its Merkle root is that of its transactions, and its
  -- coinbase claims no more than the subsidy and the fees of the entries that were chosen.
  pub build_template_lem :
      (db : ChainDb) (pool : Option Mempool) (miner_pubkey_hash : Bytes) (extra_nonce : ℕ)
      (message : Bytes) (now : ℕ) (parent : IndexEntry) (block : Block)
      → tip_entry db ≡ ok parent
      → get_index parent.hash db ≡ some parent
      → build_template c p db pool miner_pubkey_hash extra_nonce message now ≡ ok block
      → block.header.timestamp ≤ now + p.max_future_block_time
      → (check_context c p block parent now db ≡ ok tt)
        × (computed_merkle_root c block ≡ ok block.header.merkle_root)
        × ((entries : List MempoolEntry) × (entries_for c p db pool ≡ ok entries)
            × (check_coinbase_reward block (suc parent.height) (sum_fees entries) p ≡ ok tt))
  unfolding build_template
  build_template_lem db pool miner_pubkey_hash extra_nonce message now parent block at_tip indexed
        built early =
      let (parent', at_tip', h1) = >>=-eq-ok (tip_entry db) _ built in
      let same : parent ≡ parent' = ok-injective (sym at_tip ∙ at_tip') in
      let indexed' : get_index parent'.hash db ≡ some parent' =
        subst (λ z. get_index z.hash db ≡ some z) same indexed in
      let (entries, chosen, h2) = >>=-eq-ok (entries_for c p db pool) _ h1 in
      let (due, due_is, h3) = >>=-eq-ok (subsidy (pos (suc parent'.height)) p) _ h2 in
      let (tx, tx_is, h4) =
        >>=-eq-ok
          (Signing.coinbase (pos (suc parent'.height)) (pos due +ℤ sum_fees entries)
            miner_pubkey_hash extra_nonce message)
          _ h3 in
      let rest = map (λ entry. entry.tx) entries in
      let (ids, named, h5) = >>=-eq-ok (txids_of c (tx ∷ rest)) _ h4 in
      let (root, rooted, h6) = >>=-eq-ok (merkle_root c ids) _ h5 in
      let (floor, floor_is, h7) = >>=-eq-ok (min_timestamp_for_next p parent'.hash db) _ h6 in
      let (bits, bits_is, h8) = >>=-eq-ok (expected_bits_for_next p parent'.hash db) _ h7 in
      let b : Block = template parent'.hash root (max now floor) bits tx rest in
      let is_b : b ≡ block = ok-injective h8 in
      let (median, middle, above) = floor_lem db parent' floor indexed' floor_is in
      let soon : max now floor ≤ now + p.max_future_block_time =
        subst (λ z. z.header.timestamp ≤ now + p.max_future_block_time) (sym is_b) early in
      let met =
        parts_meet db parent' b now bits tx rest median refl refl
          ((encoded_height-coinbase (pos (suc parent'.height)) (pos due +ℤ sum_fees entries)
            miner_pubkey_hash extra_nonce message tx tx_is).1)
          bits_is middle (omega (arith, above)) soon in
      let reward : check_coinbase_reward b (suc parent'.height) (sum_fees entries) p ≡ ok tt =
        reward_passes p b (suc parent'.height) due (sum_fees entries) tx due_is
          (starts_with b tx rest refl)
          (pays (pos (suc parent'.height)) (pos due +ℤ sum_fees entries) miner_pubkey_hash
            extra_nonce message tx tx_is) in
      let root_is : computed_merkle_root c b ≡ ok root = roots b ids named rooted in
      subst
        (λ z.
          (check_context c p z parent now db ≡ ok tt)
          × (computed_merkle_root c z ≡ ok z.header.merkle_root)
          × ((es : List MempoolEntry) × (entries_for c p db pool ≡ ok es)
              × (check_coinbase_reward z (suc parent.height) (sum_fees es) p ≡ ok tt)))
        is_b
        (subst
          (λ q.
            (check_context c p b q now db ≡ ok tt)
            × (computed_merkle_root c b ≡ ok b.header.merkle_root)
            × ((es : List MempoolEntry) × (entries_for c p db pool ≡ ok es)
                × (check_coinbase_reward b (suc q.height) (sum_fees es) p ≡ ok tt)))
          (sym same) (met, root_is, (entries, chosen, reward)))

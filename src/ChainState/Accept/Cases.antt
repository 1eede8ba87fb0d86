-- ===== src/ChainState/Accept/Cases.antt =====
-- How a call of `accept_block` ends: a statement about outcomes holds of it if it holds of each end.
use obsidion.Prelude.{
  ℕ, ◌≡◌, refl, true, false, inl, inr, [], Bytes, some, none, Bool-cases, Option-cases,
}
use obsidion.Prelude.Result.{ok, >>=-eq-ok, >>-eq-ok, Result-cases}
use obsidion.Errors.{Error}
use obsidion.Params.{NetworkParams}
use obsidion.Crypto.{Platform}
use obsidion.Block.Model.{Block, block_hash, block_size, serialize_block}
use obsidion.Storage.{
  IndexEntry, ChainDb, get_index, idle, begin, write, commit, rollback, put_index, put_block,
  invalid,
}
use obsidion.Consensus.Rules.{check_block_structure}
use obsidion.Consensus.Rules.Accepted.{check_block_structure_lem}
use obsidion.ChainState.Left.{store_left}
use obsidion.ChainState.Reorg.{tip_entry}
use obsidion.ChainState.Accept.{
  ConnectResult, duplicate, Outcome, returned, raised, is_consensus, after_verdict, settle,
  is_invalid, make_entry, remember_invalid, find_parent, check_context, store_block, accept_entry,
  accept_new, accept_block,
}

module _ (c : Platform) (p : NetworkParams) (block : Block) (now : ℕ) (db : ChainDb) where
  -- A block that has passed the rules without a chain has a serialization.
  find_parent-serialized :
      (parent : IndexEntry)
      → find_parent c p block db ≡ ok parent
      → (raw : Bytes) × (serialize_block block ≡ ok raw)
  unfolding find_parent block_size
  find_parent-serialized parent found =
      let (_, passed, _) = >>-eq-ok (check_block_structure c block p) _ found in
      let (_, _, (size, sized, _), _, _, _) = check_block_structure_lem c block p passed in
      let (raw, written, _) = >>=-eq-ok (serialize_block block) _ sized in (raw, written)

  remember_invalid_returns :
      (entry parent : IndexEntry)
      → find_parent c p block db ≡ ok parent
      → (db' : ChainDb) × (remember_invalid block entry db ≡ ok db')
  unfolding remember_invalid
  remember_invalid_returns entry parent found =
      let (raw, written) = find_parent-serialized parent found in
      (put_index (record entry { status = invalid }) (put_block entry.hash raw db), rw written refl)

  module _ (Q : Outcome → Type 0) where
    pub record EachEnd : Type 0 where
      pub fails : (e : Error) → Q (raised e (idle db))
      pub breaks :
          (e : Error) (left : ChainDb)
          → is_consensus e ≡ false
          → Q (raised e (record { committed = db; working = left; in_transaction = true }))
      pub is_duplicate :
          (hash : Bytes) (row : IndexEntry)
          → block_hash c block ≡ ok hash
          → get_index hash db ≡ some row
          → is_invalid row.status ≡ false
          → Q (
              returned
                (record { status = duplicate; disconnected = []; connected_hashes = [] })
                (idle db))
      pub is_rejected :
          (hash : Bytes) (parent : IndexEntry) (e : Error) (db' : ChainDb)
          → block_hash c block ≡ ok hash
          → get_index hash db ≡ none
          → remember_invalid block (make_entry block hash parent) db ≡ ok db'
          → Q (raised e (idle db'))
      pub is_stored :
          (hash : Bytes) (parent : IndexEntry)
          → find_parent c p block db ≡ ok parent
          → (tip : IndexEntry) (result : ConnectResult) (db' : ChainDb)
          → block_hash c block ≡ ok hash
          → get_index hash db ≡ none
          → tip_entry db ≡ ok tip
          → store_block c p block (make_entry block hash parent) tip db ≡ ok (result, db')
          → Q (returned result (idle db'))

    module _ (ends : EachEnd) (hash : Bytes) (hashed : block_hash c block ≡ ok hash)
        (free : get_index hash db ≡ none) where
      accept_entry-cases :
          (parent : IndexEntry)
          → find_parent c p block db ≡ ok parent
          → Q (accept_entry c p block parent (make_entry block hash parent) now (idle db))
      unfolding accept_entry begin write commit rollback after_verdict settle
      accept_entry-cases parent found =
          let entry = make_entry block hash parent in
          elim (Result-cases (check_context c p block parent now db)) [
            | inr (e, failed) ↦ elim (Bool-cases (is_consensus e)) [
              | inl verdict ↦
                  (let (db', done) = remember_invalid_returns entry parent found in
                    rw (accept_entry, begin, failed, verdict, done)
                      (ends.is_rejected hash parent e db' hashed free done))
              | inr other ↦ rw (accept_entry, failed, other) (ends.fails e)
            ]
            | inl (u, passed) ↦ elim (Result-cases (tip_entry db)) [
              | inr (e, lost) ↦ rw (accept_entry, begin, passed, lost) (ends.fails e)
              | inl (tip, at) ↦ elim (Result-cases (store_block c p block entry tip db)) [
                | inl ((result, db'), done) ↦
                    rw (accept_entry, begin, passed, at, done)
                      (ends.is_stored hash parent found tip result db' hashed free at done)
                | inr (e, undone) ↦ elim (Bool-cases (is_consensus e)) [
                  | inl verdict ↦
                      rw (accept_entry, begin, passed, at, undone, verdict) (ends.fails e)
                  | inr other ↦
                      rw (accept_entry, begin, passed, at, undone, other)
                        (ends.breaks e (store_left c p block entry tip db) other)
                ]
              ]
            ]
          ]

      accept_new-cases : Q (accept_new c p block hash now (idle db))
      unfolding accept_new
      accept_new-cases = elim (Result-cases (find_parent c p block db)) [
        | inl (parent, found) ↦ rw (accept_new, found) (accept_entry-cases parent found)
        | inr (e, failed) ↦ rw (accept_new, failed) (ends.fails e)
      ]

    pub accept_block-cases : EachEnd → Q (accept_block c p block now (idle db))
    unfolding accept_block
    accept_block-cases ends = elim (Result-cases (block_hash c block)) [
      | inr (e, failed) ↦ rw (accept_block, failed) (ends.fails e)
      | inl (hash, hashed) ↦ elim (Option-cases (get_index hash db)) [
        | inl free ↦ rw (accept_block, hashed, free) (accept_new-cases ends hash hashed free)
        | inr (existing, found) ↦ elim (Bool-cases (is_invalid existing.status)) [
          | inl bad ↦ rw (accept_block, hashed, found, bad) (ends.fails _)
          | inr good ↦
              rw (accept_block, hashed, found, good)
                (ends.is_duplicate hash existing hashed found good)
        ]
      ]
    ]

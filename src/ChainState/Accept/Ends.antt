-- ===== src/ChainState/Accept/Ends.antt =====
-- The ways in which `accept_block` of obsidion/chainstate.py returns, and `store_block` within it.
use obsidion.Prelude.{
  ◌+◌, false, ◌≡◌, ◌<◌, ◌≤◌, ◌⊎◌, inl, inr, Bytes, some, sym, ◌∙◌, ap, subst, arith, Bool-cases,
  leb, leb-false→lt,
}
use obsidion.Prelude.Eq.{List_eq, ℕ_eq}
use obsidion.Prelude.Result.{
  ok, >>=-eq-ok, >>-eq-ok, ok-injective, or_raise, or_raise-eq-ok, raise_if,
}
use obsidion.Errors.{orphan_error, consensus_error, invalid_parent}
use obsidion.Params.{NetworkParams}
use obsidion.Crypto.{Platform}
use obsidion.Block.Model.{Block, block_hash, work, serialize_block}
use obsidion.Consensus.Rules.{check_block_structure}
use obsidion.Storage.{
  IndexEntry, ChainDb, Connection, idle, get_index, get_block_raw, set_meta, put_index, put_block,
}
use obsidion.ChainState.Reorg.{tip_entry, reorg_to}
use obsidion.ChainState.Index.{reorg_to-Kept}
use obsidion.ChainState.Accept.{
  ConnectResult, sidechain, duplicate, is_invalid, make_entry, find_parent, store_block, status_of,
}
use obsidion.ChainState.Accept.Tip.{new_tip, stored_entry, stored_raw}

module _ (c : Platform) (p : NetworkParams) (block : Block) (db : ChainDb) where
  -- The block was in the index, and was not rejected.
  abbrev pub WasKnown : ConnectResult → Connection → Type 0
  WasKnown result s =
      (result.status ≡ duplicate)
      × (s ≡ idle db)
      × ((hash : Bytes) × (row : IndexEntry) × (block_hash c block ≡ ok hash)
          × (get_index hash db ≡ some row)
          × (is_invalid row.status ≡ false))

  -- The block is in the index and among the blocks, on a branch of no more work than the tip's.
  abbrev pub IsAside : IndexEntry → ConnectResult → ChainDb → Type 0
  IsAside tip result db' =
      (result.status ≡ sidechain)
      × (db'.utxos ≡ db.utxos)
      × (db'.undo ≡ db.undo)
      × (db'.meta ≡ db.meta)
      × ((hash : Bytes) × (parent : IndexEntry) × (raw : Bytes) × (block_hash c block ≡ ok hash)
          × (get_index block.header.prev_hash db ≡ some parent)
          × (get_index hash db' ≡ some (make_entry block hash parent))
          × (serialize_block block ≡ ok raw)
          × (get_block_raw hash db' ≡ some raw)
          × (parent.cumwork + work block.header ≤ tip.cumwork))

  -- The block is the tip, with more work than the old one.
  abbrev pub IsTop : IndexEntry → ConnectResult → ChainDb → Type 0
  IsTop tip result db' =
      (result.status ≡ status_of result.disconnected)
      × ((hash : Bytes) × (parent : IndexEntry) × (row : IndexEntry) × (block_hash c block
            ≡ ok hash)
          × (get_index block.header.prev_hash db ≡ some parent)
          × (tip_entry db' ≡ ok row)
          × (row.hash ≡ hash)
          × (row.cumwork ≡ parent.cumwork + work block.header)
          × (tip.cumwork < row.cumwork))

  -- What `accept_block` may have done when it returns.
  abbrev pub HasReturned : IndexEntry → ConnectResult → Connection → Type 0
  HasReturned tip result s =
      WasKnown result s
      ⊎ ((db' : ChainDb) × (s ≡ idle db') × (IsAside tip result db' ⊎ IsTop tip result db'))

  pub parent_found :
      (parent : IndexEntry)
      → find_parent c p block db ≡ ok parent
      → get_index block.header.prev_hash db ≡ some parent
  unfolding find_parent
  parent_found parent found =
      let (_, _, h1) = >>-eq-ok (check_block_structure c block p) _ found in
      let (row, there, h2) =
        >>=-eq-ok (or_raise (get_index block.header.prev_hash db) orphan_error) _ h1 in
      let (_, _, h3) =
        >>-eq-ok (raise_if (is_invalid row.status) (consensus_error invalid_parent)) _ h2 in
      or_raise-eq-ok _ _ there ∙ ap some (ok-injective h3)

  pub store_block-ends :
      (hash : Bytes) (parent tip : IndexEntry) (result : ConnectResult) (db' : ChainDb)
      → block_hash c block ≡ ok hash
      → get_index block.header.prev_hash db ≡ some parent
      → store_block c p block (make_entry block hash parent) tip db ≡ ok (result, db')
      → IsAside tip result db' ⊎ IsTop tip result db'
  unfolding store_block put_index put_block set_meta make_entry get_index
  store_block-ends hash parent tip result db' hashed above stored =
      let entry = make_entry block hash parent in
      let (raw, written, h1) = >>=-eq-ok (serialize_block block) _ stored in
      let db1 = put_index entry (put_block hash raw db) in
      elim (Bool-cases (leb entry.cumwork tip.cumwork)) [
        | inl less ↦
            let e = ok-injective (rw less at h1) in
            let no_more : parent.cumwork + work block.header ≤ tip.cumwork = ground arith in
            inl (
              sym (ap (λ x. x.0.status) e),
              sym (ap (λ x. x.1.utxos) e),
              sym (ap (λ x. x.1.undo) e),
              sym (ap (λ x. x.1.meta) e),
              (
                hash,
                parent,
                raw,
                hashed,
                above,
                subst (λ d. get_index hash d ≡ some entry) (ap (λ x. x.1) e)
                    (stored_entry entry raw db),
                written,
                subst (λ d. get_block_raw hash d ≡ some raw) (ap (λ x. x.1) e)
                    (stored_raw entry raw db),
                no_more,
              ),
            )
        | inr more ↦
            let (((transactions, hashes), db2), moved, h2) =
              >>=-eq-ok (reorg_to c p entry tip.height db1) _ (rw more at h1) in
            let (k2, m2) =
              reorg_to-Kept c p entry tip.height db1 db2 (transactions, hashes) moved in
            let (row, found, same) = k2 hash entry (stored_entry entry raw db) in
            let e = ok-injective h2 in
            let heavier : tip.cumwork < row.cumwork =
              rw same.cumwork (leb-false→lt entry.cumwork tip.cumwork more) in
            inr (
              sym (ap (λ x. x.0.status) e) ∙ ap (λ x. status_of x.0.disconnected) e,
              (
                hash,
                parent,
                row,
                hashed,
                above,
                subst (λ d. tip_entry d ≡ ok row) (ap (λ x. x.1) e) (new_tip hash row db2 found),
                same.hash,
                same.cumwork,
                heavier,
              ),
            )
      ]

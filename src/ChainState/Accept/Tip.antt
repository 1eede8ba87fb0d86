-- ===== src/ChainState/Accept/Tip.antt =====
-- The tip and the index after `accept_block`.
use obsidion.Prelude.{
  ℕ, ◌≡◌, ◌<◌, refl, ◌⊎◌, inl, inr, Bytes, some, none, Bool-cases, sym, ◌∙◌, ap, leb, subst,
  leb-false→lt,
}
use obsidion.Prelude.Eq.{ℕ_eq, List_eq, String_eq, =?-refl}
use obsidion.Prelude.Result.{ok, >>=-eq-ok, ok-injective, or_raise, or_raise-eq-ok}
use obsidion.Errors.{assertion_error}
use obsidion.Params.{NetworkParams}
use obsidion.Crypto.{Platform}
use obsidion.Table.{lookup}
use obsidion.Table.Laws.{lookup-put}
use obsidion.Block.Model.{Block, serialize_block}
use obsidion.Storage.{
  IndexEntry, ChainDb, get_index, get_block_raw, get_meta, set_meta, put_index, put_block, invalid,
  idle,
}
use obsidion.ChainState.Reorg.{tip_key, tip_hash, tip_entry, reorg_to}
use obsidion.ChainState.Index.{
  SameBlock, SameBlock-refl, Kept, Kept-refl, Kept-trans, put_new-Kept, reorg_to-Kept,
}
use obsidion.ChainState.Accept.Cases.{accept_block-cases}
use obsidion.ChainState.Accept.{
  ConnectResult, left_by, restarted, make_entry, remember_invalid, store_block, accept_block,
}

-- The tip, read from its two tables.
IsTip : ChainDb → IndexEntry → Type 0
IsTip db tip = (hash : Bytes) × (get_meta tip_key db ≡ some hash) × (get_index hash db ≡ some tip)

tip_entry-IsTip : (db : ChainDb) (tip : IndexEntry) → tip_entry db ≡ ok tip → IsTip db tip
unfolding tip_entry tip_hash IsTip
tip_entry-IsTip db tip h =
    let (hash, named, h1) = >>=-eq-ok (or_raise (get_meta tip_key db) assertion_error) _ h in
    (hash, or_raise-eq-ok _ _ named, or_raise-eq-ok _ _ h1)

IsTip-tip_entry : (db : ChainDb) (tip : IndexEntry) → IsTip db tip → tip_entry db ≡ ok tip
unfolding tip_entry tip_hash IsTip
IsTip-tip_entry db tip (hash, named, found) = rw (named, found) refl

-- Where the meta rows stay and the index is kept, the tip is the same block.
Kept-tip :
    (db db' : ChainDb) (tip : IndexEntry)
    → Kept db.block_index db'.block_index
    → db'.meta ≡ db.meta
    → tip_entry db ≡ ok tip
    → (tip' : IndexEntry) × (tip_entry db' ≡ ok tip') × SameBlock tip tip'
unfolding IsTip get_meta get_index
Kept-tip db db' tip kept same h =
    let (hash, named, found) = tip_entry-IsTip db tip h in
    let (tip', found', block) = kept hash tip found in
    (tip', IsTip-tip_entry db' tip' (hash, ap (lookup tip_key) same ∙ named, found'), block)

-- The database after a block is stored, before anything is connected.
stored_Kept :
    (entry : IndexEntry) (raw : Bytes) (db : ChainDb)
    → get_index entry.hash db ≡ none
    → Kept db.block_index ((put_index entry (put_block entry.hash raw db)).block_index)
unfolding get_index put_index put_block
stored_Kept entry raw db free = put_new-Kept entry.hash entry db.block_index free

pub stored_entry :
    (entry : IndexEntry) (raw : Bytes) (db : ChainDb)
    → get_index entry.hash (put_index entry (put_block entry.hash raw db)) ≡ some entry
unfolding get_index put_index put_block
stored_entry entry raw db =
    lookup-put entry.hash entry.hash entry db.block_index ∙ rw (=?-refl entry.hash) refl

pub stored_raw :
    (entry : IndexEntry) (raw : Bytes) (db : ChainDb)
    → get_block_raw entry.hash (put_index entry (put_block entry.hash raw db)) ≡ some raw
unfolding get_block_raw put_index put_block
stored_raw entry raw db =
    lookup-put entry.hash entry.hash raw db.blocks ∙ rw (=?-refl entry.hash) refl

stored_meta :
    (entry : IndexEntry) (raw : Bytes) (db : ChainDb)
    → (put_index entry (put_block entry.hash raw db)).meta ≡ db.meta
unfolding put_index put_block
stored_meta entry raw db = refl

pub new_tip :
    (hash : Bytes) (row : IndexEntry) (db : ChainDb)
    → get_index hash db ≡ some row
    → tip_entry (set_meta tip_key hash db) ≡ ok row
unfolding set_meta get_meta IsTip get_index
new_tip hash row db found =
    IsTip-tip_entry (set_meta tip_key hash db) row
      (hash, lookup-put tip_key tip_key hash db.meta, found)

-- The index is kept, and the tip is the block it was, or one with more work.
abbrev pub Moves : ChainDb → IndexEntry → ChainDb → Type 0
Moves db tip db' =
    Kept db.block_index db'.block_index
    × ((tip' : IndexEntry) × (tip_entry db' ≡ ok tip')
        × (SameBlock tip tip' ⊎ (tip.cumwork < tip'.cumwork)))

Moves-refl : (db : ChainDb) (tip : IndexEntry) → tip_entry db ≡ ok tip → Moves db tip db
Moves-refl db tip h = (Kept-refl db.block_index, (tip, h, inl (SameBlock-refl tip)))

Moves-stored :
    (entry : IndexEntry) (raw : Bytes) (db : ChainDb) (tip : IndexEntry)
    → get_index entry.hash db ≡ none
    → tip_entry db ≡ ok tip
    → Moves db tip (put_index entry (put_block entry.hash raw db))
Moves-stored entry raw db tip free h =
    let kept = stored_Kept entry raw db free in
    let (tip', at, same) =
      Kept-tip db (put_index entry (put_block entry.hash raw db)) tip kept
        (stored_meta entry raw db) h in
    (kept, (tip', at, inl same))

module _ (c : Platform) (p : NetworkParams) where
  store_block-Moves :
      (block : Block) (entry tip : IndexEntry) (db db' : ChainDb) (result : ConnectResult)
      → get_index entry.hash db ≡ none
      → tip_entry db ≡ ok tip
      → store_block c p block entry tip db ≡ ok (result, db')
      → Moves db tip db'
  unfolding store_block set_meta get_index
  store_block-Moves block entry tip db db' result free h stored =
      let (raw, _, h1) = >>=-eq-ok (serialize_block block) _ stored in
      let db1 = put_index entry (put_block entry.hash raw db) in
      let (kept, (tip1, at1, same1)) = Moves-stored entry raw db tip free h in
      elim (Bool-cases (leb entry.cumwork tip.cumwork)) [
        | inl less ↦
            let e : db1 ≡ db' = ap (λ x. x.1) (ok-injective (rw less at h1)) in
            subst (λ z. Moves db tip z) e (kept, (tip1, at1, same1))
        | inr more ↦
            let (((transactions, hashes), db2), moved, h2) =
              >>=-eq-ok (reorg_to c p entry tip.height db1) _ (rw more at h1) in
            let (k2, m2) =
              reorg_to-Kept c p entry tip.height db1 db2 (transactions, hashes) moved in
            let (row, found, block') = k2 entry.hash entry (stored_entry entry raw db) in
            let e : set_meta tip_key entry.hash db2 ≡ db' = ap (λ x. x.1) (ok-injective h2) in
            let heavier : tip.cumwork < row.cumwork =
              rw block'.cumwork (leb-false→lt entry.cumwork tip.cumwork more) in
            subst (λ z. Moves db tip z) e
              (
                Kept-trans db.block_index db1.block_index db2.block_index kept k2,
                (row, new_tip entry.hash row db2 found, inr heavier),
              )
      ]

  remember_invalid-Moves :
      (block : Block) (entry tip : IndexEntry) (db db' : ChainDb)
      → get_index entry.hash db ≡ none
      → tip_entry db ≡ ok tip
      → remember_invalid block entry db ≡ ok db'
      → Moves db tip db'
  unfolding remember_invalid
  remember_invalid-Moves block entry tip db db' free h stored =
      let (raw, _, h1) = >>=-eq-ok (serialize_block block) _ stored in
      subst (λ z. Moves db tip z) (ok-injective h1)
        (Moves-stored (record entry { status = invalid }) raw db tip free h)

  -- The call leaves a connection without a transaction, if need be after a restart.
  pub accept_block-Moves :
      (block : Block) (now : ℕ) (db : ChainDb) (tip : IndexEntry)
      → tip_entry db ≡ ok tip
      → (db' : ChainDb) × (restarted (left_by (accept_block c p block now (idle db))) ≡ idle db')
        × Moves db tip db'
  accept_block-Moves block now db tip h =
      accept_block-cases c p block now db
        (λ outcome. (db' : ChainDb) × (restarted (left_by outcome) ≡ idle db') × Moves db tip db')
        (record {
          fails = λ e. (db, refl, Moves-refl db tip h);
          breaks = λ e left other. (db, refl, Moves-refl db tip h);
          is_duplicate = λ hash row hashed there good. (db, refl, Moves-refl db tip h);
          is_rejected = λ hash parent e db' hashed free done. (
            db',
            refl,
            remember_invalid-Moves block (make_entry block hash parent) tip db db'
                (unfold make_entry in free) h done,
          );
          is_stored = λ hash parent found tip' result db' hashed free h' done. (
            db',
            refl,
            subst (λ z. Moves db z db') (ok-injective (sym h' ∙ h))
                (store_block-Moves block (make_entry block hash parent) tip' db db' result
                  (unfold make_entry in free) h' done),
          );
        })

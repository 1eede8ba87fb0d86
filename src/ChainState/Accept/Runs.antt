-- ===== src/ChainState/Accept/Runs.antt =====
-- A node that is offered blocks one after the other, and what each offer leaves.
use obsidion.Prelude.{
  ℕ, true, false, ◌≡◌, ◌≤◌, refl, inl, inr, List, [], ◌∷◌, Bytes, some, sym, ◌∙◌, ap, subst, arith,
}
use obsidion.Prelude.Eq.{List_eq, ℕ_eq}
use obsidion.Prelude.Result.{ok, >>=-eq-ok, ok-injective}
use obsidion.Errors.{Error}
use obsidion.Params.{NetworkParams}
use obsidion.Crypto.{Platform}
use obsidion.Block.Model.{Block, serialize_block}
use obsidion.Storage.{IndexEntry, ChainDb, Connection, idle, get_index, put_index, put_block}
use obsidion.ChainState.Reorg.{tip_entry}
use obsidion.ChainState.Index.{SameBlock, SameBlock-refl, SameBlock-trans}
use obsidion.ChainState.Accept.{
  ConnectResult, returned, raised, left_by, restarted, is_consensus, remember_invalid, accept_block,
}
use obsidion.ChainState.Accept.Cases.{accept_block-cases}
use obsidion.ChainState.Accept.Ends.{HasReturned, store_block-ends, parent_found}
use obsidion.ChainState.Accept.Tip.{accept_block-Moves}

returned_result :
    {r r' : ConnectResult} {s s' : Connection} → returned r s ≡ returned r' s' → r ≡ r'
returned_result h = cc

returned_left : {r r' : ConnectResult} {s s' : Connection} → returned r s ≡ returned r' s' → s ≡ s'
returned_left h = cc

raised_error : {e e' : Error} {s s' : Connection} → raised e s ≡ raised e' s' → e ≡ e'
raised_error h = cc

raised_left : {e e' : Error} {s s' : Connection} → raised e s ≡ raised e' s' → s ≡ s'
raised_left h = cc

-- What an exception leaves.
abbrev pub HasRaised : ChainDb → Error → Connection → Type 0
HasRaised db e s =
    ((s.committed.utxos ≡ db.utxos) × (s.committed.undo ≡ db.undo) × (s.committed.meta ≡ db.meta))
    × (is_consensus e ≡ true → s ≡ idle s.committed)

module _ (c : Platform) (p : NetworkParams) where
  -- Each offer starts from what the one before has left, after a restart if that is an open
  -- transaction.
  unfoldable pub accept_all : List (Block × ℕ) → Connection → Connection
  accept_all [] s = s
  accept_all ((block, now) ∷ offers) s =
      accept_all offers (restarted (left_by (accept_block c p block now s)))

  -- From a chain with a tip, over any sequence of offered blocks, with a restart after one that leaves
  -- a transaction open, the chain keeps a tip, its cumulative work never goes down, and every block in the index
  -- stays there with its hash, parent, height and work.
  pub accept_all-work :
      (offers : List (Block × ℕ)) (db : ChainDb) (tip : IndexEntry) (hash : Bytes)
      (row : IndexEntry)
      → tip_entry db ≡ ok tip
      → get_index hash db ≡ some row
      → (tip' : IndexEntry) × (row' : IndexEntry) × (tip_entry
            ((accept_all offers (idle db)).working)
          ≡ ok tip')
        × (tip.cumwork ≤ tip'.cumwork)
        × (get_index hash ((accept_all offers (idle db)).working) ≡ some row')
        × SameBlock row row'
  unfolding accept_all get_index
  accept_all-work [] db tip hash row h found = (tip, row, h, omega arith, found, SameBlock-refl row)
  accept_all-work ((block, now) ∷ offers) db tip hash row h found =
      let (db1, left, (kept, (tip1, at1, grown))) = accept_block-Moves c p block now db tip h in
      let (row1, found1, same1) = kept hash row found in
      let (tip2, row2, at2, more, found2, same2) =
        accept_all-work offers db1 tip1 hash row1 at1 found1 in
      let rises : tip.cumwork ≤ tip1.cumwork = elim grown [
        | inl same ↦ omega (arith, same.cumwork)
        | inr heavier ↦ omega arith
      ] in
      rw (accept_all, left)
        (
          tip2,
          row2,
          at2,
          omega (arith, rises, more),
          found2,
          SameBlock-trans row row1 row2 same1 same2,
        )

  module _ (block : Block) (now : ℕ) (db : ChainDb) where
    -- If `accept_block` returns at a chain with a tip and without an open transaction, then the block
    -- was in the index, not as an invalid one, and nothing changed; or it is stored in the index and
    -- among the blocks, on top of its parent, with no more cumulative work than the tip, and the
    -- unspent outputs, the undo records and the tip stayed; or the block is the new tip, its
    -- cumulative work is its parent's and its own, and that is more than the old tip's. In each case
    -- what was written is committed.
    pub accept_block-returned :
        (tip : IndexEntry) (result : ConnectResult) (s : Connection)
        → tip_entry db ≡ ok tip
        → accept_block c p block now (idle db) ≡ returned result s
        → HasReturned c p block db tip result s
    accept_block-returned tip result s h =
        accept_block-cases c p block now db
          (λ o. o ≡ returned result s → HasReturned c p block db tip result s)
          (record {
            fails = λ e k. cc;
            breaks = λ e left other k. cc;
            is_duplicate = λ hash row hashed there good k. inl (
              sym (ap (λ x. x.status) (returned_result k)),
              sym (returned_left k),
              (hash, row, hashed, there, good),
            );
            is_rejected = λ hash parent e db1 hashed free done k. cc;
            is_stored = λ hash parent found tip1 result1 db1 hashed free at done k.
                let ends =
                  store_block-ends c p block db hash parent tip1 result1 db1 hashed
                    (parent_found c p block db parent found) done in
                let same = ok-injective (sym at ∙ h) in
                subst (λ t. HasReturned c p block db t result s) same
                  (subst (λ r. HasReturned c p block db tip1 r s) (returned_result k)
                    (inr (db1, sym (returned_left k), ends)));
          })

    -- Whatever exception `accept_block` raises at a connection without an open transaction, the
    -- committed unspent outputs, undo records and tip are what they were. If it is a
    -- `ConsensusError`, then no transaction is open, and what the next call reads is what is
    -- committed.
    pub accept_block-raised :
        (e : Error) (s : Connection)
        → accept_block c p block now (idle db) ≡ raised e s
        → HasRaised db e s
    unfolding remember_invalid put_index put_block
    accept_block-raised e s =
        accept_block-cases c p block now db (λ o. o ≡ raised e s → HasRaised db e s)
          (record {
            fails = λ e1 k.
                subst (λ z. HasRaised db e z) (raised_left k) ((refl, refl, refl), λ verdict. refl);
            breaks = λ e1 left other k.
                subst (λ z. HasRaised db e z) (raised_left k)
                  (
                    (refl, refl, refl),
                    λ verdict.
                        let clash : true ≡ false =
                          sym verdict ∙ ap is_consensus (sym (raised_error k)) ∙ other in
                        cc,
                  );
            is_duplicate = λ hash row hashed there good k. cc;
            is_rejected = λ hash parent e1 db1 hashed free done k.
                let (raw, _, written) = >>=-eq-ok (serialize_block block) _ done in
                let d = ok-injective written in
                subst (λ z. HasRaised db e z) (raised_left k)
                  (
                    (sym (ap (λ x. x.utxos) d), sym (ap (λ x. x.undo) d), sym (ap (λ x. x.meta) d)),
                    λ verdict. refl,
                  );
            is_stored = λ hash parent found tip1 result1 db1 hashed free at done k. cc;
          })

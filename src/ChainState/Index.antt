-- ===== src/ChainState/Index.antt =====
-- The block index under the operations of the chain state: `Kept` relates two indexes.
use obsidion.Prelude.{
  ℕ, zero, suc, ◌≡◌, refl, inl, inr, Bool, true, false, List, [], ◌∷◌, ◌++◌, Bytes, some, none,
  Bool-cases, sym, ◌∙◌, ap,
}
use obsidion.Prelude.Eq.{◌=?◌, ℕ_eq, List_eq, =?-eq}
use obsidion.Prelude.Result.{ok, >>=-eq-ok, ok-injective, or_raise}
use obsidion.Errors.{assertion_error, struct_error, except_value}
use obsidion.Params.{NetworkParams}
use obsidion.Crypto.{Platform}
use obsidion.Table.{Table, lookup, put, update}
use obsidion.Table.Laws.{lookup-put, lookup-update}
use obsidion.Transaction.Model.{Transaction}
use obsidion.Transaction.Varint.{write_varint, read_varint}
use obsidion.Wire.{join_map, read_many}
use obsidion.Block.Model.{Block, block_hash, deserialize_block}
use obsidion.Storage.{IndexEntry, ChainDb, get_index, set_active, get_block_raw, put_undo, get_undo}
use obsidion.ChainState.Undo.{pack_undo, unpack_undo}
use obsidion.ChainState.Connect.{connect, connect_utxos, disconnect, disconnect_utxos}
use obsidion.ChainState.Reorg.{branch_loop, disconnect_loop, connect_loop, reorg_to, tip_hash}

abbrev pub BlockIndex : Type 0
BlockIndex = Table Bytes IndexEntry

-- Two rows of one block, which may differ in `active` and `status`.
pub record SameBlock (a b : IndexEntry) : Type 0 where
  pub hash : b.hash ≡ a.hash
  pub prev_hash : b.prev_hash ≡ a.prev_hash
  pub height : b.height ≡ a.height
  pub cumwork : b.cumwork ≡ a.cumwork
  pub timestamp : b.timestamp ≡ a.timestamp
  pub bits : b.bits ≡ a.bits

pub SameBlock-refl : (a : IndexEntry) → SameBlock a a
SameBlock-refl a = record {
  hash = refl;
  prev_hash = refl;
  height = refl;
  cumwork = refl;
  timestamp = refl;
  bits = refl;
}

pub SameBlock-trans : (a b c : IndexEntry) → SameBlock a b → SameBlock b c → SameBlock a c
SameBlock-trans a b c h k = record {
  hash = k.hash ∙ h.hash;
  prev_hash = k.prev_hash ∙ h.prev_hash;
  height = k.height ∙ h.height;
  cumwork = k.cumwork ∙ h.cumwork;
  timestamp = k.timestamp ∙ h.timestamp;
  bits = k.bits ∙ h.bits;
}

-- Every row of the first index is in the second.
abbrev pub Kept : BlockIndex → BlockIndex → Type 0
Kept index index' =
    (hash : Bytes) (row : IndexEntry)
    → lookup hash index ≡ some row
    → (row' : IndexEntry) × (lookup hash index' ≡ some row') × SameBlock row row'

pub Kept-refl : (index : BlockIndex) → Kept index index
Kept-refl index hash row h = (row, h, SameBlock-refl row)

pub Kept-trans : (r s t : BlockIndex) → Kept r s → Kept s t → Kept r t
Kept-trans r s t f g hash row h =
    let (row', h', a) = f hash row h in
    let (row'', h'', b) = g hash row' h' in (row'', h'', SameBlock-trans row row' row'' a b)

pub put_new-Kept :
    (hash : Bytes) (new : IndexEntry) (index : BlockIndex)
    → lookup hash index ≡ none
    → Kept index (put hash new index)
put_new-Kept hash new index free k row h = elim (Bool-cases (hash =? k)) [
  | inl e ↦ let clash : some row ≡ none = sym h ∙ (rw (← =?-eq hash k e) free) in cc
  | inr e ↦ (row, lookup-put hash k new index ∙ (rw (e, h) refl), SameBlock-refl row)
]

module _ (active : Bool) (hash : Bytes) (index : BlockIndex) where
  abbrev marked : IndexEntry → IndexEntry
  marked row = record row { active = active }

  marked-SameBlock : (row : IndexEntry) → SameBlock row (marked row)
  marked-SameBlock row = record {
    hash = refl;
    prev_hash = refl;
    height = refl;
    cumwork = refl;
    timestamp = refl;
    bits = refl;
  }

  pub set_active-Kept : Kept index (update hash (λ row. record row { active = active }) index)
  set_active-Kept k row h = elim (Bool-cases (hash =? k)) [
    | inl e ↦
        (marked row, lookup-update hash k marked index ∙ (rw (e, h) refl), marked-SameBlock row)
    | inr e ↦ (row, lookup-update hash k marked index ∙ (rw (e, h) refl), SameBlock-refl row)
  ]

module _ (c : Platform) where
  connect_index :
      (p : NetworkParams) (height : ℕ) (block : Block) (db db' : ChainDb)
      → connect c p height block db ≡ ok db'
      → (db'.block_index ≡ db.block_index) × (db'.meta ≡ db.meta)
  unfolding connect put_undo
  connect_index p height block db db' h =
      let (s, _, h1) = >>=-eq-ok (connect_utxos c p height block db.utxos) _ h in
      let (hash, _, h2) = >>=-eq-ok (block_hash c block) _ h1 in
      let (count, _, h3) = >>=-eq-ok (write_varint _) _ h2 in
      let (entries, _, h4) = >>=-eq-ok (join_map pack_undo s.undo_entries) _ h3 in
      let e = ok-injective h4 in (sym (ap (λ x. x.block_index) e), sym (ap (λ x. x.meta) e))

  disconnect_index :
      (hash : Bytes) (db db' : ChainDb) (transactions : List Transaction)
      → disconnect c hash db ≡ ok (transactions, db')
      → Kept db.block_index db'.block_index × (db'.meta ≡ db.meta)
  unfolding disconnect set_active
  disconnect_index hash db db' transactions h =
      let (raw, _, h1) = >>=-eq-ok (or_raise (get_block_raw hash db) assertion_error) _ h in
      let (block, _, h2) = >>=-eq-ok (deserialize_block raw) _ h1 in
      let (undo_raw, _, h3) = >>=-eq-ok (or_raise (get_undo hash db) assertion_error) _ h2 in
      let ((count, offset), _, h4) = >>=-eq-ok (read_varint undo_raw 0) _ h3 in
      let ((entries, end), _, h5) =
        >>=-eq-ok (except_value (read_many unpack_undo count undo_raw offset) struct_error) _ h4 in
      let (utxos, _, h6) = >>=-eq-ok (disconnect_utxos c block entries db.utxos) _ h5 in
      let e = ap (λ x. x.1) (ok-injective h6) in
      (rw (← e) (set_active-Kept false hash db.block_index), sym (ap (λ x. x.meta) e))

  disconnect_loop-Kept :
      (fuel : ℕ) (hash fork_hash : Bytes) (before after : List Transaction) (db db' : ChainDb)
      → disconnect_loop c fuel hash fork_hash before db ≡ ok (after, db')
      → Kept db.block_index db'.block_index × (db'.meta ≡ db.meta)
  unfolding disconnect_loop
  disconnect_loop-Kept zero hash fork_hash before after db db' h = cc
  disconnect_loop-Kept (suc fuel) hash fork_hash before after db db' h =
      elim (Bool-cases (hash =? fork_hash)) [
        | inl there ↦
            let e = ap (λ x. x.1) (ok-injective (rw there at h)) in
            rw (← e) (Kept-refl db.block_index, refl)
        | inr further ↦
            let ((transactions, db1), gone, h1) =
              >>=-eq-ok (disconnect c hash db) _ (rw further at h) in
            let (entry, _, h2) = >>=-eq-ok (or_raise (get_index hash db1) assertion_error) _ h1 in
            let (k1, m1) = disconnect_index hash db db1 transactions gone in
            let (k2, m2) =
              disconnect_loop-Kept fuel entry.prev_hash fork_hash (before ++ transactions) after db1
                db' h2 in
            (Kept-trans db.block_index db1.block_index db'.block_index k1 k2, m2 ∙ m1)
      ]

  module _ (p : NetworkParams) where
    connect_loop-Kept :
        (branch : List IndexEntry) (db db' : ChainDb)
        → connect_loop c p branch db ≡ ok db'
        → Kept db.block_index db'.block_index × (db'.meta ≡ db.meta)
    unfolding connect_loop set_active
    connect_loop-Kept [] db db' h = rw (← ok-injective h) (Kept-refl db.block_index, refl)
    connect_loop-Kept (entry ∷ branch) db db' h =
        let (raw, _, h1) = >>=-eq-ok (or_raise (get_block_raw entry.hash db) assertion_error) _ h in
        let (block, _, h2) = >>=-eq-ok (deserialize_block raw) _ h1 in
        let (db1, connected, h3) = >>=-eq-ok (connect c p entry.height block db) _ h2 in
        let (i1, m1) = connect_index p entry.height block db db1 connected in
        let (k2, m2) = connect_loop-Kept branch (set_active entry.hash true db1) db' h3 in
        let k1 = set_active-Kept true entry.hash db1.block_index in
        (rw (← i1) (Kept-trans db1.block_index _ db'.block_index k1 k2), m2 ∙ m1)

    -- A reorganization changes the index only in what is active, and no meta row.
    pub reorg_to-Kept :
        (candidate : IndexEntry) (tip_height : ℕ) (db db' : ChainDb)
        (result : List Transaction × List Bytes)
        → reorg_to c p candidate tip_height db ≡ ok (result, db')
        → Kept db.block_index db'.block_index × (db'.meta ≡ db.meta)
    unfolding reorg_to
    reorg_to-Kept candidate tip_height db db' result h =
        let ((branch, fork), _, h1) =
          >>=-eq-ok (branch_loop (suc candidate.height) candidate [] db) _ h in
        let (hash, _, h2) = >>=-eq-ok (tip_hash db) _ h1 in
        let ((disconnected, db1), gone, h3) =
          >>=-eq-ok (disconnect_loop c (suc tip_height) hash fork.hash [] db) _ h2 in
        let (db2, connected, h4) = >>=-eq-ok (connect_loop c p branch db1) _ h3 in
        let (k1, m1) =
          disconnect_loop-Kept (suc tip_height) hash fork.hash [] disconnected db db1 gone in
        let (k2, m2) = connect_loop-Kept branch db1 db2 connected in
        let e = ap (λ x. x.1) (ok-injective h4) in
        rw (← e) (Kept-trans db.block_index db1.block_index db2.block_index k1 k2, m2 ∙ m1)

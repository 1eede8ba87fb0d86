-- ===== src/Block/RoundTrip.antt =====
-- Headers and blocks are read back as they were written.
use obsidion.Prelude.{
  ◌+◌, ◌≡◌, refl, sym, ap, ◌∙◌, true, false, not, [], ◌++◌, append-nil, Bytes, length,
  length-append, take, drop, take-append, drop-append, All, ◌==◌, ==_iff, ltb, arith,
}
use obsidion.Prelude.Result.{ok, >>=-eq-ok, ok-injective, raise_if}
use obsidion.Wire.{pack_unsigned, pack_signed, read_exactly, read_many, join_map}
use obsidion.Wire.Numbers.{unpack-pack_unsigned, unpack-pack_signed}
use obsidion.Wire.Reading.{Decodes, At, At-advance, Decodes-bind, Decodes-map, Decodes-read_many}
use obsidion.Transaction.Varint.{write_varint, read_varint}
use obsidion.Transaction.Codec.{read_unsigned, read_signed}
use obsidion.Transaction.Codec
use obsidion.Transaction.RoundTrip.{
  Decodes-slice, Decodes-read_unsigned, Decodes-read_signed, SpendsIds, Decodes-transaction,
  Decodes-varint,
}
use obsidion.Block.Model.{
  BlockHeader, Block, serialize_header, unpack_header, deserialize_header, serialize_block,
  deserialize_block,
}

-- The header's bytes, read anywhere, and how many there are.
header_lem :
    (h : BlockHeader) (raw : Bytes)
    → serialize_header h ≡ ok raw
    → Decodes unpack_header raw h × (length raw ≡ 80)
unfolding serialize_header unpack_header
header_lem h raw e =
    let (_, c1, e1) = >>=-eq-ok (raise_if (not (length h.prev_hash == 32)) _) _ e in
    let (_, c2, e2) = >>=-eq-ok (raise_if (not (length h.merkle_root == 32)) _) _ e1 in
    let (v, h1, e3) = >>=-eq-ok (pack_signed 4 h.version) _ e2 in
    let (t, h2, e4) = >>=-eq-ok (pack_unsigned 4 h.timestamp) _ e3 in
    let (b, h3, e5) = >>=-eq-ok (pack_unsigned 4 h.bits) _ e4 in
    let (n, h4, e6) = >>=-eq-ok (pack_unsigned 4 h.nonce) _ e5 in
    let l1 : length h.prev_hash ≡ 32 = ground arith in
    let l2 : length h.merkle_root ≡ 32 = ground arith in
    let bytes : v ++ (h.prev_hash ++ (h.merkle_root ++ (t ++ (b ++ n)))) ≡ raw = ok-injective e6 in
    rw (← bytes) (
      Decodes-bind (read_signed 4) _ v _ h.version h (Decodes-read_signed 4 h.version v h1) (
          Decodes-bind (read_exactly 32) _ h.prev_hash _ h.prev_hash h
            (Decodes-slice 32 h.prev_hash l1)
            (Decodes-bind (read_exactly 32) _ h.merkle_root _ h.merkle_root h
              (Decodes-slice 32 h.merkle_root l2)
              (Decodes-bind (read_unsigned 4) _ t _ h.timestamp h
                (Decodes-read_unsigned 4 h.timestamp t h2)
                (Decodes-bind (read_unsigned 4) _ b n h.bits h (Decodes-read_unsigned 4 h.bits b h3)
                  (Decodes-map (read_unsigned 4) (λ k. record h { nonce = k }) n h.nonce
                    (Decodes-read_unsigned 4 h.nonce n h4)))))),
      omega (
        arith,
        length-append v (h.prev_hash ++ (h.merkle_root ++ (t ++ (b ++ n)))),
        length-append h.prev_hash (h.merkle_root ++ (t ++ (b ++ n))),
        length-append h.merkle_root (t ++ (b ++ n)),
        length-append t (b ++ n),
        length-append b n,
        (unpack-pack_signed 4 h.version v h1).1,
        (unpack-pack_unsigned 4 h.timestamp t h2).1,
        (unpack-pack_unsigned 4 h.bits b h3).1,
        (unpack-pack_unsigned 4 h.nonce n h4).1,
      ),
    )

-- A header that serializes takes exactly 80 bytes, and `BlockHeader.deserialize` gives it back.
pub deserialize_header-serialize_header :
    (h : BlockHeader) (raw : Bytes)
    → serialize_header h ≡ ok raw
    → (length raw ≡ 80) × (deserialize_header raw ≡ ok h)
unfolding deserialize_header
deserialize_header-serialize_header h raw e =
    let (reads, len) = header_lem h raw e in
    let at : At raw 0 (raw ++ []) = (omega arith, sym (append-nil raw)) in
    (len, rw (len, reads raw 0 [] at) refl)

-- The parser on the three parts of a block.
assembled :
    (b : Block) (header count txs : Bytes)
    → length header ≡ 80
    → deserialize_header header ≡ ok b.header
    → Decodes read_varint count (length b.transactions)
    → Decodes (read_many Codec.deserialize_from (length b.transactions)) txs b.transactions
    → deserialize_block (header ++ (count ++ txs)) ≡ ok b
unfolding deserialize_block
assembled b header count txs len parsed counts reads =
    let raw = header ++ (count ++ txs) in
    let long : ltb (length raw) 80 ≡ false = ground (arith, length-append header (count ++ txs)) in
    let front : take 80 raw ≡ header =
      ap (λ n. take n raw) (sym len) ∙ take-append header (count ++ txs) in
    let at : At raw 80 (count ++ (txs ++ [])) = (
      omega (arith, length-append header (count ++ txs)),
      ap (λ n. drop n raw) (sym len)
          ∙ drop-append header (count ++ txs)
          ∙ ap (λ l. count ++ l) (sym (append-nil txs)),
    ) in
    let behind = At-advance raw 80 count (txs ++ []) at in
    let end : (80 + length count + length txs == length raw) ≡ true =
      (==_iff _ _).1
        (omega (arith, length-append header (count ++ txs), length-append count txs)) in
    rw
      (
        long,
        front,
        parsed,
        counts raw 80 (txs ++ []) at,
        reads raw (80 + length count) [] behind,
        end,
      )
      refl

-- If a block whose transactions name 32-byte ids serializes, `Block.deserialize` gives it back.
pub deserialize_block-serialize_block :
    (b : Block) (raw : Bytes)
    → All SpendsIds b.transactions
    → serialize_block b ≡ ok raw
    → deserialize_block raw ≡ ok b
unfolding serialize_block deserialize_block
deserialize_block-serialize_block b raw ids e =
    let (header, h1, e1) = >>=-eq-ok (serialize_header b.header) _ e in
    let (count, h2, e2) = >>=-eq-ok (write_varint (length b.transactions)) _ e1 in
    let (txs, h3, e3) = >>=-eq-ok (join_map (Codec.serialize false) b.transactions) _ e2 in
    let bytes : header ++ (count ++ txs) ≡ raw = ok-injective e3 in
    let (len, parsed) = deserialize_header-serialize_header b.header header h1 in
    rw (← bytes) (
      assembled b header count txs len parsed (Decodes-varint (length b.transactions) count h2) (
        Decodes-read_many (Codec.serialize false) Codec.deserialize_from SpendsIds
          Decodes-transaction b.transactions txs ids h3))

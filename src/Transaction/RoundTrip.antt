-- ===== src/Transaction/RoundTrip.antt =====
-- Whatever the serializers of transactions write, the parsers read back, wherever it stands.
use obsidion.Prelude.{
  ℕ, ◌+◌, ◌≤◌, ◌<◌, ◌≡◌, refl, ap, subst, ◌∙◌, true, false, not, List, [], ◌∷◌, ◌++◌, Bytes, length,
  take, All, ltb, leb, ◌==◌, take-append, arith, Bool-cases, inl, inr,
}
use obsidion.Prelude.Int.{ℤ}
use obsidion.Prelude.Result.{ok, >>=-eq-ok, raise_if}
use obsidion.Wire.{
  pack_unsigned, pack_signed, unpack_unsigned, unpack_signed, read_exactly, read_many, join_map,
}
use obsidion.Wire.Numbers.{unpack-pack_unsigned, unpack-pack_signed}
use obsidion.Wire.Reading.{
  Decodes, At, At-length, At-advance, get_elem?-At, Decodes-read_exactly, Decodes-map, Decodes-bind,
  Decodes-read_many,
}
use obsidion.Transaction.Model.{OutPoint, TxIn, TxOut, Transaction}
use obsidion.Transaction.Varint.{write_varint, read_varint, read_payload, width_of, with_marker}
use obsidion.Transaction.Codec.{
  read_varbytes, write_varbytes, read_unsigned, read_signed, serialize_outpoint,
  deserialize_outpoint, serialize_input, deserialize_input, serialize_output, deserialize_output,
  serialize_parts, serialize, written_inputs, deserialize_from,
}

pub Decodes-slice :
    (width : ℕ) (raw : Bytes) → length raw ≡ width → Decodes (read_exactly width) raw raw
Decodes-slice width raw e =
    subst (λ w. Decodes (read_exactly w) raw raw) e (Decodes-read_exactly raw)

pub Decodes-read_unsigned :
    (width n : ℕ) (raw : Bytes)
    → pack_unsigned width n ≡ ok raw
    → Decodes (read_unsigned width) raw n
unfolding read_unsigned
Decodes-read_unsigned width n raw h =
    let (e, len) = unpack-pack_unsigned width n raw h in
    subst (λ m. Decodes (read_unsigned width) raw m) e
      (Decodes-map (read_exactly width) unpack_unsigned raw raw (Decodes-slice width raw len))

pub Decodes-read_signed :
    (width : ℕ) (z : ℤ) (raw : Bytes)
    → pack_signed width z ≡ ok raw
    → Decodes (read_signed width) raw z
unfolding read_signed
Decodes-read_signed width z raw h =
    let (e, len) = unpack-pack_signed width z raw h in
    subst (λ m. Decodes (read_signed width) raw m) e
      (Decodes-map (read_exactly width) (unpack_signed width) raw raw (Decodes-slice width raw len))

Decodes-read_payload :
    (width n : ℕ) (raw : Bytes)
    → pack_unsigned width n ≡ ok raw
    → Decodes (read_payload width) raw n
unfolding read_payload
Decodes-read_payload width n raw h buffer offset rest at =
    let (e, len) = unpack-pack_unsigned width n raw h in
    ground (
      arith,
      At-length buffer offset raw rest at,
      ap (take (length raw)) at.1,
      take-append raw rest,
    )

-- A marker byte, then the payload whose width it names.
Decodes-marker :
    (marker n : ℕ) (payload : Bytes)
    → 0xFD ≤ marker
    → pack_unsigned (width_of marker) n ≡ ok payload
    → Decodes read_varint (marker ∷ payload) n
unfolding read_varint
Decodes-marker marker n payload big h buffer offset rest at =
    let found = get_elem?-At buffer offset marker (payload ++ rest) at.1 in
    let big? : ltb marker 0xFD ≡ false = ground arith in
    let behind : At buffer (offset + 1) (payload ++ rest) =
      At-advance buffer offset (marker ∷ []) (payload ++ rest) at in
    rw (found, big?)
      (Decodes-read_payload (width_of marker) n payload h buffer (offset + 1) rest behind
        ∙ ap (λ o. ok (n, o)) (omega arith))

Decodes-with_marker :
    (marker n width : ℕ) (raw : Bytes)
    → 0xFD ≤ marker
    → width_of marker ≡ width
    → with_marker marker (pack_unsigned width n) ≡ ok raw
    → Decodes read_varint raw n
unfolding with_marker
Decodes-with_marker marker n width raw big e h =
    let (payload, packed, done) = >>=-eq-ok (pack_unsigned width n) _ h in
    let bytes : marker ∷ payload ≡ raw = cc in
    rw (← bytes) (Decodes-marker marker n payload big (rw e packed))

Decodes-small : (n : ℕ) (raw : Bytes) → n < 0xFD → n ∷ [] ≡ raw → Decodes read_varint raw n
unfolding read_varint
Decodes-small n raw small bytes = rw (← bytes) λ buffer offset rest at.
    let found = get_elem?-At buffer offset n rest at.1 in
    let small? : ltb n 0xFD ≡ true = ground arith in
    rw (found, small?) (ap (λ o. ok (n, o)) (omega arith))

pub Decodes-varint : (n : ℕ) (raw : Bytes) → write_varint n ≡ ok raw → Decodes read_varint raw n
unfolding write_varint
Decodes-varint n raw h = elim (Bool-cases (ltb n 0xFD)) [
  | inl a ↦ Decodes-small n raw (ground arith) (ground arith)
  | inr a ↦ elim (Bool-cases (leb n 0xFFFF)) [
    | inl b ↦ Decodes-with_marker 0xFD n 2 raw (omega arith) two (rw (a, b) at h)
    | inr b ↦ elim (Bool-cases (leb n 0xFFFF_FFFF)) [
      | inl d ↦ Decodes-with_marker 0xFE n 4 raw (omega arith) four (rw (a, b, d) at h)
      | inr d ↦ elim (Bool-cases (leb n 0xFFFF_FFFF_FFFF_FFFF)) [
        | inl e ↦ Decodes-with_marker 0xFF n 8 raw (omega arith) eight (rw (a, b, d, e) at h)
        | inr e ↦ ground arith
      ]
    ]
  ]
]
  where
    two : width_of 0xFD ≡ 2
    two = unfold width_of in refl

    four : width_of 0xFE ≡ 4
    four = unfold width_of in refl

    eight : width_of 0xFF ≡ 8
    eight = unfold width_of in refl

-- Each of the parsers below reads back what the serializer of the same structure has written.
Decodes-varbytes :
    (payload raw : Bytes) → write_varbytes payload ≡ ok raw → Decodes read_varbytes raw payload
unfolding write_varbytes read_varbytes
Decodes-varbytes payload raw h =
    let (size, wrote, done) = >>=-eq-ok (write_varint (length payload)) _ h in
    let bytes : size ++ payload ≡ raw = ground arith in
    rw (← bytes) (
      Decodes-bind read_varint read_exactly size payload (length payload) payload
        (Decodes-varint (length payload) size wrote) (Decodes-read_exactly payload))

Decodes-outpoint :
    (o : OutPoint) (raw : Bytes)
    → length o.txid ≡ 32
    → serialize_outpoint o ≡ ok raw
    → Decodes deserialize_outpoint raw o
unfolding serialize_outpoint deserialize_outpoint
Decodes-outpoint o raw len h =
    let (index, packed, done) = >>=-eq-ok (pack_unsigned 4 o.index) _ h in
    let bytes : o.txid ++ index ≡ raw = ground arith in
    rw (← bytes) (
      Decodes-bind (read_exactly 32) _ o.txid index o.txid o (Decodes-slice 32 o.txid len) (
        Decodes-map (read_unsigned 4) (λ n. record { txid = o.txid; index = n }) index o.index
          (Decodes-read_unsigned 4 o.index index packed)))

Decodes-input :
    (i : TxIn) (raw : Bytes)
    → length i.prevout.txid ≡ 32
    → serialize_input i ≡ ok raw
    → Decodes deserialize_input raw i
unfolding serialize_input deserialize_input
Decodes-input i raw len h =
    let (prevout, h1, r1) = >>=-eq-ok (serialize_outpoint i.prevout) _ h in
    let (signature, h2, r2) = >>=-eq-ok (write_varbytes i.signature) _ r1 in
    let (pubkey, h3, r3) = >>=-eq-ok (write_varbytes i.pubkey) _ r2 in
    let (sequence, h4, r4) = >>=-eq-ok (pack_unsigned 4 i.sequence) _ r3 in
    let bytes : prevout ++ (signature ++ (pubkey ++ sequence)) ≡ raw = ground arith in
    rw (← bytes) (
      Decodes-bind deserialize_outpoint _ prevout (signature ++ (pubkey ++ sequence)) i.prevout i
        (Decodes-outpoint i.prevout prevout len h1)
        (Decodes-bind read_varbytes _ signature (pubkey ++ sequence) i.signature i
          (Decodes-varbytes i.signature signature h2)
          (Decodes-bind read_varbytes _ pubkey sequence i.pubkey i
            (Decodes-varbytes i.pubkey pubkey h3)
            (Decodes-map (read_unsigned 4) (λ n. record i { sequence = n }) sequence i.sequence
              (Decodes-read_unsigned 4 i.sequence sequence h4)))))

Decodes-output :
    (o : TxOut) (raw : Bytes) → serialize_output o ≡ ok raw → Decodes deserialize_output raw o
unfolding serialize_output deserialize_output
Decodes-output o raw h =
    let (_, checked, r1) = >>=-eq-ok (raise_if (not (length o.pubkey_hash == 20)) _) _ h in
    let (amount, packed, r2) = >>=-eq-ok (pack_signed 8 o.amount) _ r1 in
    let len : length o.pubkey_hash ≡ 20 = ground arith in
    let bytes : amount ++ o.pubkey_hash ≡ raw = ground arith in
    rw (← bytes) (
      Decodes-bind (read_signed 8) _ amount o.pubkey_hash o.amount o
        (Decodes-read_signed 8 o.amount amount packed)
        (Decodes-map (read_exactly 20) (λ l. record o { pubkey_hash = l }) o.pubkey_hash
          o.pubkey_hash (Decodes-slice 20 o.pubkey_hash len)))

-- The one thing that `serialize` does not check: the ids of the outputs that are spent.
abbrev pub SpendsIds : Transaction → Type 0
SpendsIds tx = All (λ i. length i.prevout.txid ≡ 32) tx.inputs

pub Decodes-transaction :
    (tx : Transaction) (raw : Bytes)
    → SpendsIds tx
    → serialize false tx ≡ ok raw
    → Decodes deserialize_from raw tx
unfolding serialize serialize_parts written_inputs deserialize_from
Decodes-transaction tx raw ids h =
    let (v, h1, r1) = >>=-eq-ok (pack_signed 4 tx.version) _ h in
    let (ic, h2, r2) = >>=-eq-ok (write_varint (length tx.inputs)) _ r1 in
    let (ins, h3, r3) = >>=-eq-ok (join_map serialize_input tx.inputs) _ r2 in
    let (oc, h4, r4) = >>=-eq-ok (write_varint (length tx.outputs)) _ r3 in
    let (outs, h5, r5) = >>=-eq-ok (join_map serialize_output tx.outputs) _ r4 in
    let (lock, h6, r6) = >>=-eq-ok (pack_unsigned 4 tx.locktime) _ r5 in
    let bytes : v ++ (ic ++ (ins ++ (oc ++ (outs ++ lock)))) ≡ raw = ground arith in
    rw (← bytes) (
      Decodes-bind (read_signed 4) _ v _ tx.version tx (Decodes-read_signed 4 tx.version v h1) (
        Decodes-bind read_varint _ ic _ (length tx.inputs) tx
          (Decodes-varint (length tx.inputs) ic h2)
          (Decodes-bind (read_many deserialize_input (length tx.inputs)) _ ins _ tx.inputs tx
            (Decodes-read_many serialize_input deserialize_input (λ i. length i.prevout.txid ≡ 32)
              (λ i raw' p w. Decodes-input i raw' p w) tx.inputs ins ids h3)
            (Decodes-bind read_varint _ oc _ (length tx.outputs) tx
              (Decodes-varint (length tx.outputs) oc h4)
              (Decodes-bind (read_many deserialize_output (length tx.outputs)) _ outs lock
                tx.outputs tx
                (Decodes-read_many serialize_output deserialize_output (λ o. Unit)
                  (λ o raw' p w. Decodes-output o raw' w) tx.outputs outs (All-unit tx.outputs) h5)
                (Decodes-map (read_unsigned 4) (λ n. record tx { locktime = n }) lock tx.locktime
                  (Decodes-read_unsigned 4 tx.locktime lock h6)))))))
  where
    All-unit : (xs : List TxOut) → All (λ o. Unit {0}) xs
    All-unit = elim [ [] ↦ tt | x ∷ (xs → ih) ↦ (tt, ih) ]

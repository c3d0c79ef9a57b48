-- ===== src/Journal/Opening.antt =====
-- internal/flightrec/journal/frame.go and scan.go: the header of a segment, framed and parsed.
use mathlib.Core.List.{append_assoc, append-nil}
use dev_cadence.Prelude.{
  ℕ, ◌+◌, ◌≤◌, ◌≡◌, refl, sym, ap, ◌∙◌, subst, true, false, none, [], ◌∷◌, ◌++◌, length,
  length-append, ltb, arith,
}
use dev_cadence.Bytes.{Bytes, ◌==◌, take, drop, take-append, drop-append}
use dev_cadence.Wire.Decoder.{Decoded}
use dev_cadence.Wire.Messages.SegmentHeader
use dev_cadence.Wire.Messages.SegmentHeader.{SegmentHeader}
use dev_cadence.Journal.Crc.{checksum, checksum_bound, checksum_parts}
use dev_cadence.Journal.Frame.{
  put_u32, get_u32, put_u16, get_u16, header_fixed, max_header_meta, encode_header, fixed_part,
}
use dev_cadence.Journal.Machine.{Source, SegScan, Answer, continue, read}
use dev_cadence.Journal.Scanner.{starts, fixed_fault, header_fault, header_rest, parse_header}
use dev_cadence.Journal.Intact.{Reads, none-ChunkOf, read_piece, get-put_u32}

abbrev pub trailer : Bytes → Bytes
trailer meta = put_u32 (checksum ((fixed_part meta ++ meta) ∷ []))

-- The length of an encoded header.
abbrev pub header_size : Bytes → ℕ
header_size meta = header_fixed + length meta + 4

fixed_length : (meta : Bytes) → length (fixed_part meta) ≡ 16
unfolding fixed_part put_u16 put_u32
fixed_length meta = refl

trailer_length : (v : ℕ) → length (put_u32 v) ≡ 4
unfolding put_u32
trailer_length v = refl

pub length-encode_header : (meta : Bytes) → length (encode_header meta) ≡ header_size meta
unfolding encode_header
length-encode_header meta = omega (
  arith,
  length-append (fixed_part meta ++ meta) (trailer meta),
  length-append (fixed_part meta) meta,
  fixed_length meta,
  trailer_length (checksum ((fixed_part meta ++ meta) ∷ [])),
)

-- What a header must say for the scanner to go on.
pub record IsHeader (src : Source) (meta : Bytes) (h : SegmentHeader) : Type 0 where
  pub not_empty : 1 ≤ length meta
  pub not_large : length meta ≤ max_header_meta
  pub decodes : SegmentHeader.unmarshal src.protowire meta ≡ Decoded.ok h
  pub versioned : 1 ≤ h.schema_version
  pub indexed : h.segment_index ≡ src.idx
  pub numbered : 1 ≤ h.first_sequence

passes_fixed :
    (size : ℕ) (meta : Bytes)
    → 1 ≤ length meta
    → length meta ≤ max_header_meta
    → header_size meta ≤ size
    → fixed_fault size (fixed_part meta) (length meta) ≡ none
unfolding fixed_part put_u16 put_u32 get_u16 take drop
passes_fixed size meta pos cap_ok fits = ground arith

fixed_says :
    (meta : Bytes)
    → length meta ≤ max_header_meta
    → get_u32 (drop 12 (fixed_part meta)) ≡ length meta
unfolding fixed_part put_u16 drop
fixed_says meta small =
    rw (append-nil (put_u32 (length meta))) at (get-put_u32 (length meta) [] (omega arith))

passes_header :
    (src : Source) (meta : Bytes) (h : SegmentHeader)
    → IsHeader src meta h
    → header_fault src.idx h ≡ none
passes_header src meta h v = ground (arith, v.versioned, v.indexed, v.numbered)

rest_found :
    (src : Source) (meta : Bytes) (h : SegmentHeader) (s : SegScan)
    → IsHeader src meta h
    → read src header_fixed (length meta + 4) s ≡ (Answer.val (meta ++ trailer meta), s)
    → header_rest src (fixed_part meta) (length meta) none s
      ≡ (Answer.val (starts (header_size meta)), record s { hdr = h })
unfolding continue
rest_found src meta h s v got =
    let sum = checksum ((fixed_part meta ++ meta) ∷ []) in
    let back : get_u32 (put_u32 sum) ≡ sum =
      rw (append-nil (put_u32 sum)) at
        (get-put_u32 sum [] (checksum_bound (fixed_part meta ++ meta) [])) in
    let same : (checksum (fixed_part meta ∷ meta ∷ []) == get_u32 (trailer meta)) ≡ true =
      rw (back, checksum_parts) (ground arith) in
    let decoded = v.decodes in
    rw got (
      rw (take-append meta (trailer meta)) (
        rw (drop-append meta (trailer meta))
          (rw same (rw decoded (rw (passes_header src meta h v) refl)))))

-- `parseHeader` reads back the header that `encodeHeader` has framed.
pub parse_header-encode_header :
    (src : Source) (meta post : Bytes) (h : SegmentHeader) (s : SegScan)
    → Reads src (encode_header meta ++ post)
    → s.c_buf ≡ []
    → IsHeader src meta h
    → parse_header src s ≡ (Answer.val (starts (header_size meta)), record s { hdr = h })
unfolding parse_header continue
parse_header-encode_header src meta post h s r none_cached v =
    let total : src.size ≡ header_size meta + length post =
      omega (arith, r.sized, length-append (encode_header meta) post, length-encode_header meta) in
    let piece : length (meta ++ trailer meta) ≡ length meta + 4 = omega (
      arith,
      length-append meta (trailer meta),
      trailer_length (checksum ((fixed_part meta ++ meta) ∷ [])),
    ) in
    let split : encode_header meta ++ post ≡ fixed_part meta ++ ((meta ++ trailer meta) ++ post) =
      unfold encode_header in
      (append_assoc (fixed_part meta ++ meta) (trailer meta) post
        ∙ append_assoc (fixed_part meta) meta (trailer meta ++ post)
        ∙ ap (λ x. fixed_part meta ++ x) (sym (append_assoc meta (trailer meta) post))) in
    let reads = subst (Reads src) split r in
    let first : read src 0 header_fixed s ≡ (Answer.val (fixed_part meta), s) =
      rw (fixed_length meta) at (
        read_piece src [] (fixed_part meta) ((meta ++ trailer meta) ++ post) s reads
          (none-ChunkOf _ s none_cached) (omega (arith, fixed_length meta))) in
    let second : read src header_fixed (length meta + 4) s
        ≡ (Answer.val (meta ++ trailer meta), s) =
      rw (fixed_length meta, piece) at
        (read_piece src (fixed_part meta) (meta ++ trailer meta) post s reads
          (none-ChunkOf _ s none_cached) (omega (arith, piece, v.not_empty))) in
    let long : ltb src.size header_fixed ≡ false = ground arith in
    let said = fixed_says meta v.not_large in
    let fine = passes_fixed src.size meta v.not_empty v.not_large (omega arith) in
    rw long (rw first (rw said (rw fine (rest_found src meta h s v second))))

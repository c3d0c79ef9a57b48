-- ===== src/Journal/Intact.antt =====
-- internal/flightrec/journal/frame.go and scan.go: what was framed, found again by the scanner.
use mathlib.Core.List.{append_assoc, append-nil}
use dev_cadence.Prelude.{
  ℕ, ◌+◌, ◌-◌, ◌≤◌, ◌<◌, ◌≡◌, refl, sym, ap, subst, Bool, true, false, not, some, [], ◌∷◌, ◌++◌,
  length, length-append, ltb, leb, ◌||◌, ◌&&◌, if◌then◌else◌, Bool-cases, inl, inr, ◌∙◌, arith,
}
use dev_cadence.Bytes.{
  Bytes, ◌==◌, equal, take, drop, take-append, drop-append, drop-drop, take-drop-take,
}
use dev_cadence.Wire.Decoder.{Decoded}
use dev_cadence.Wire.Messages.JournalRecord
use dev_cadence.Wire.Messages.JournalRecord.{JournalRecord}
use dev_cadence.Journal.Crc.{checksum, checksum_bound}
use dev_cadence.Journal.Findings.{FindingCode}
use dev_cadence.Journal.Frame.{put_u32, get_u32, frame_sync, frame_overhead, encode_frame}
use dev_cadence.Journal.Machine.{Source, SegScan, Answer, Run, pure, continue, in_cache, read}
use dev_cadence.Journal.Scanner.{FrameAt, valid, frame_at, frame_head, frame_payload, decoded_frame}

-- The reader gives the bytes of the file.
pub record Reads (src : Source) (content : Bytes) : Type 0 where
  pub sized : src.size ≡ length content
  pub bytes :
      (off n : ℕ) → off + n ≤ length content → src.read_at off n ≡ some (take n (drop off content))

pub get-put_u32 : (v : ℕ) (rest : Bytes) → v < 0x1_0000_0000 → get_u32 (put_u32 v ++ rest) ≡ v
unfolding get_u32 put_u32
get-put_u32 v rest h = omega arith

-- The chunk that is cached, if any, is what the file has at its offset.
abbrev pub ChunkOf : Bytes → SegScan → Type 0
ChunkOf content s = s.c_buf ≡ take (length s.c_buf) (drop s.c_off content)

pub none-ChunkOf : (content : Bytes) (s : SegScan) → s.c_buf ≡ [] → ChunkOf content s
unfolding take
none-ChunkOf content s e = e ∙ ap (λ b. take (length b) (drop s.c_off content)) (sym e)

-- A piece of the file that lies in the chunk.
hit :
    (pre piece post : Bytes) (s : SegScan)
    → ChunkOf (pre ++ (piece ++ post)) s
    → s.c_off ≤ length pre
    → length pre + length piece ≤ s.c_off + length s.c_buf
    → take (length piece) (drop (length pre - s.c_off) s.c_buf) ≡ piece
hit pre piece post s chunk lo hi =
    let content = pre ++ (piece ++ post) in
    let k = length pre - s.c_off in
    let at : s.c_off + k ≡ length pre = omega arith in
    ap (λ b. take (length piece) (drop k b)) chunk
    ∙ take-drop-take (length piece) k (length s.c_buf) (drop s.c_off content) (omega arith)
    ∙ ap (λ b. take (length piece) b) (drop-drop s.c_off k content)
    ∙ rw at (rw drop-append (take-append piece post))

-- A read of a piece of the file is the piece, from the cache or not.
pub read_piece :
    (src : Source) (pre piece post : Bytes) (s : SegScan)
    → Reads src (pre ++ (piece ++ post))
    → ChunkOf (pre ++ (piece ++ post)) s
    → 1 ≤ length piece
    → read src (length pre) (length piece) s ≡ (Answer.val piece, s)
unfolding read
read_piece src pre piece post s r chunk pos =
    let cut : take (length piece) (drop (length pre) (pre ++ (piece ++ post))) ≡ piece =
      rw drop-append (take-append piece post) in
    let fits : length pre + length piece ≤ length (pre ++ (piece ++ post)) =
      omega (arith, length-append pre (piece ++ post), length-append piece post) in
    elim (Bool-cases
      (leb (length piece) (frame_overhead + 1) && in_cache s (length pre) (length piece))) [
        | inr e ↦ rw e (rw (r.bytes (length pre) (length piece) fits) (rw cut (ground arith)))
        | inl e ↦ rw e (rw (hit pre piece post s chunk (ground arith) (ground arith)) refl)
      ]

-- The head of a frame.
abbrev head_of : Bytes → Bytes
head_of payload =
    frame_sync
    ++ (put_u32 (length payload) ++ put_u32 (checksum (put_u32 (length payload) ∷ payload ∷ [])))

split_frame :
    (pre payload post : Bytes)
    → pre ++ (encode_frame payload ++ post) ≡ (pre ++ head_of payload) ++ (payload ++ post)
unfolding encode_frame put_u32
split_frame pre payload post = sym (append_assoc pre (head_of payload) (payload ++ post))

head_length : (payload : Bytes) → length (head_of payload) ≡ 12
unfolding put_u32
head_length payload = refl

abbrev checked_frame : (same : Bool) → FrameAt → Run FrameAt
checked_frame same f = if not same then pure (FrameAt.bad FindingCode.bad_crc false) else pure f

-- A payload whose checksum is right.
checked :
    (same : Bool) (n : ℕ) (d : Decoded JournalRecord) (rec : JournalRecord) (s : SegScan)
    → same ≡ true
    → d ≡ Decoded.ok rec
    → JournalRecord.validate rec ≡ true
    → checked_frame same (decoded_frame n d) s ≡ (Answer.val (valid rec n), s)
checked same n d rec s right decodes validates = rw (right, decodes, validates) refl

payload_found :
    (src : Source) (pre payload post : Bytes) (rec : JournalRecord) (s : SegScan)
    → Reads src (pre ++ (encode_frame payload ++ post))
    → ChunkOf (pre ++ (encode_frame payload ++ post)) s
    → 1 ≤ length payload
    → JournalRecord.unmarshal src.protowire payload ≡ Decoded.ok rec
    → JournalRecord.validate rec ≡ true
    → frame_payload src (length pre) (head_of payload) (length payload) s
      ≡ (Answer.val (valid rec (frame_overhead + length payload)), s)
unfolding continue put_u32 take drop
payload_found src pre payload post rec s r chunk pos decodes validates =
    let size = put_u32 (length payload) in
    let sum = checksum (size ∷ payload ∷ []) in
    let at : length (pre ++ head_of payload) ≡ length pre + frame_overhead =
      omega (arith, length-append pre (head_of payload), head_length payload) in
    let reads = subst (Reads src) (split_frame pre payload post) r in
    let got =
      read_piece src (pre ++ head_of payload) payload post s reads
        (subst (λ b. ChunkOf b s) (split_frame pre payload post) chunk) pos in
    let back : get_u32 (put_u32 sum) ≡ sum =
      rw (append-nil (put_u32 sum)) at (get-put_u32 sum [] (checksum_bound size (payload ∷ []))) in
    let found : read src (length pre + frame_overhead) (length payload) s
        ≡ (Answer.val payload, s) =
      rw at at got in
    rw found
      (checked (sum == get_u32 (put_u32 sum)) _ _ rec s (ground (arith, back)) decodes validates)

head_chunk :
    (pre payload post : Bytes) (s : SegScan)
    → ChunkOf (pre ++ (encode_frame payload ++ post)) s
    → ChunkOf (pre ++ (head_of payload ++ (payload ++ post))) s
unfolding encode_frame put_u32
head_chunk pre payload post s chunk = chunk

head_read :
    (src : Source) (pre payload post : Bytes)
    → Reads src (pre ++ (encode_frame payload ++ post))
    → Reads src (pre ++ (head_of payload ++ (payload ++ post)))
unfolding encode_frame put_u32
head_read src pre payload post r = r

-- The tests on the head of a frame that fits let it through to its payload.
head_passes :
    (src : Source) (off : ℕ) (payload : Bytes) (s : SegScan) (result : Answer FrameAt × SegScan)
    → 1 ≤ length payload
    → length payload ≤ src.max_rec
    → src.max_rec < 0x1_0000_0000
    → off + frame_overhead + length payload ≤ src.size
    → frame_payload src off (head_of payload) (length payload) s ≡ result
    → frame_head src off false (head_of payload) s ≡ result
head_passes src off payload s result pos small word fits found =
    let sync : equal (take 4 (head_of payload)) frame_sync ≡ true = unfold take put_u32 in refl in
    let size : get_u32 (drop 4 (head_of payload)) ≡ length payload =
      unfold drop put_u32 in get-put_u32 (length payload) _ (omega arith) in
    let legal : (length payload == 0 || ltb src.max_rec (length payload)) ≡ false = ground arith in
    let inside : ltb src.size (off + frame_overhead + length payload) ≡ false = ground arith in
    rw sync (rw size (rw legal (rw inside found)))

-- Where the reader gives the bytes of a file, and the chunk that is cached, if any, is what the file has
-- at its offset: at a frame that `encodeFrame` has made of a payload, whatever stands before and behind
-- it, `frameAt` gives the record and the length of the frame, and changes nothing. The call is one of the
-- main loop, not a probe of a resync; the payload is not empty and within the limit for a record, which
-- is below 2 ^ 32; it decodes to the record, and the record validates.
pub frame_at-encode_frame :
    (src : Source) (pre payload post : Bytes) (rec : JournalRecord) (s : SegScan)
    → Reads src (pre ++ (encode_frame payload ++ post))
    → ChunkOf (pre ++ (encode_frame payload ++ post)) s
    → 1 ≤ length payload
    → length payload ≤ src.max_rec
    → src.max_rec < 0x1_0000_0000
    → JournalRecord.unmarshal src.protowire payload ≡ Decoded.ok rec
    → JournalRecord.validate rec ≡ true
    → frame_at src (length pre) false s
      ≡ (Answer.val (valid rec (frame_overhead + length payload)), s)
unfolding frame_at continue
frame_at-encode_frame src pre payload post rec s r chunk pos small word decodes validates =
    let total : src.size ≡ length pre + (frame_overhead + length payload + length post) = omega (
      arith,
      r.sized,
      ap (λ b. length b) (split_frame pre payload post),
      length-append (pre ++ head_of payload) (payload ++ post),
      length-append pre (head_of payload),
      length-append payload post,
      head_length payload,
    ) in
    let got : read src (length pre) frame_overhead s ≡ (Answer.val (head_of payload), s) =
      rw (head_length payload) at (
        read_piece src pre (head_of payload) (payload ++ post) s (head_read src pre payload post r)
          (head_chunk pre payload post s chunk) (omega (arith, head_length payload))) in
    let room : ltb (src.size - length pre) frame_overhead ≡ false = ground arith in
    rw room (
      rw got (
        head_passes src (length pre) payload s _ pos small word (omega arith)
          (payload_found src pre payload post rec s r chunk pos decodes validates)))

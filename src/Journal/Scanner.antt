-- ===== src/Journal/Scanner.antt =====
-- internal/flightrec/journal/scan.go: the methods of `segScan` on one header or frame.
use dev_cadence.Prelude.{
  ℕ, ◌+◌, ◌-◌, ◌*◌, ◌%◌, String, Bool, true, false, not, Option, none, some, [], ◌∷◌, ◌++◌, ◌||◌,
  ltb, leb, if◌then◌else◌,
}
use dev_cadence.Bytes.{Bytes, ◌==◌, equal, take, drop}
use dev_cadence.Wire.Encoder.{sign_extend}
use dev_cadence.Wire.Decoder.{Decoded}
use dev_cadence.Wire.Messages.JournalRecord
use dev_cadence.Wire.Messages.JournalRecord.{JournalRecord}
use dev_cadence.Wire.Messages.SegmentHeader
use dev_cadence.Wire.Messages.SegmentHeader.{SegmentHeader}
use dev_cadence.Journal.Crc.{checksum}
use dev_cadence.Journal.Frame.{
  get_u16, get_u32, segment_magic, frame_sync, format_version, max_header_meta, header_fixed,
  frame_overhead,
}
use dev_cadence.Journal.Findings.{FindingCode, Scanned}
use dev_cadence.Journal.Machine.{
  Source, SegScan, ScanError, Answer, Run, ◌>>=◌, pure, get_state, modify, add, read,
}

-- The offset where the records start, or what is wrong with the header.
pub data Header : Type 0 where
  starts : ℕ → Header
  damaged : String → Header

-- The checks on the fixed part that come before the rest of the header is read.
abbrev pub fixed_fault : ℕ → Bytes → ℕ → Option String
fixed_fault size fixed meta_len =
    if not (equal (take 8 fixed) segment_magic)
    then some "bad magic"
    else if not (get_u16 (drop 8 fixed) == format_version)
    then some "unsupported format_version"
    else if not (get_u16 (drop 10 fixed) == 0)
    then some "unknown reserved flag bits"
    else if ltb meta_len 1 || ltb max_header_meta meta_len
    then some "meta_len out of range"
    else if ltb size (header_fixed + meta_len + 4)
    then some "file shorter than the header"
    else none

abbrev pub header_fault : ℕ → SegmentHeader → Option String
header_fault idx h =
    if ltb h.schema_version 1
    then some "header schema_version < 1"
    else if not (h.segment_index == idx)
    then some "header segment_index does not match file index"
    else if ltb h.first_sequence 1
    then some "header first_sequence < 1"
    else none

abbrev pub header_result : ℕ → Option String → Header
header_result end none = Header.starts end
header_result end (some detail) = Header.damaged detail

-- The header is stored when its meta block decodes.
abbrev pub decoded_header : Source → ℕ → Decoded SegmentHeader → Run Header
decoded_header src end (Decoded.fail x) = pure (Header.damaged "header meta does not decode")
decoded_header src end (Decoded.ok h) =
    modify (λ s. record s { hdr = h }) >>= λ u. pure (header_result end (header_fault src.idx h))

abbrev pub header_rest : Source → Bytes → ℕ → Option String → Run Header
header_rest src fixed meta_len (some detail) = pure (Header.damaged detail)
header_rest src fixed meta_len none = read src header_fixed (meta_len + 4) >>= λ rest.
    if not (checksum (fixed ∷ take meta_len rest ∷ []) == get_u32 (drop meta_len rest))
    then pure (Header.damaged "header checksum mismatch")
    else decoded_header src (header_fixed + meta_len + 4)
        (SegmentHeader.unmarshal src.protowire (take meta_len rest))

unfoldable pub parse_header : Source → Run Header
unfolding read
parse_header src =
    if ltb src.size header_fixed
    then pure (Header.damaged "file shorter than the fixed header")
    else read src 0 header_fixed >>= λ fixed.
        let meta_len = get_u32 (drop 12 fixed) in
        header_rest src fixed meta_len (fixed_fault src.size fixed meta_len)

-- What `frameAt` says of an offset: a record with the length of its frame, or what is wrong and
-- whether the frame is merely incomplete.
pub data FrameAt : Type 0 where
  valid : JournalRecord → ℕ → FrameAt
  bad : FindingCode → (torn : Bool) → FrameAt

abbrev pub schema_version_tag : ℕ
schema_version_tag = 8

abbrev pub resync_budget_factor : ℕ
resync_budget_factor = 4

abbrev pub decoded_frame : ℕ → Decoded JournalRecord → FrameAt
decoded_frame n (Decoded.fail x) = FrameAt.bad FindingCode.decode_error false
decoded_frame n (Decoded.ok rec) =
    if JournalRecord.validate rec
    then FrameAt.valid rec n
    else FrameAt.bad FindingCode.decode_error false

abbrev pub frame_payload : Source → ℕ → Bytes → ℕ → Run FrameAt
frame_payload src off head len = read src (off + frame_overhead) len >>= λ payload.
    if not (checksum (take 4 (drop 4 head) ∷ payload ∷ []) == get_u32 (drop 8 head))
    then pure (FrameAt.bad FindingCode.bad_crc false)
    else pure (decoded_frame (frame_overhead + len) (JournalRecord.unmarshal src.protowire payload))

abbrev blow : Run (Unit {0})
blow = modify (λ t. record t { budget_blown = true })

-- The cheap tests on a candidate of a resync, before its payload is read.
abbrev pub frame_probe : Source → ℕ → Bytes → ℕ → Run FrameAt
frame_probe src off head len = read src (off + frame_overhead) 1 >>= λ first.
    if not (equal first (schema_version_tag ∷ []))
    then pure (FrameAt.bad FindingCode.decode_error false)
    else get_state >>= λ s.
        if ltb (resync_budget_factor * src.max_resync) (s.spent + len)
        then blow >>= (λ u. pure (FrameAt.bad FindingCode.decode_error false))
        else modify (λ t. record t { spent = t.spent + len }) >>= λ u.
            frame_payload src off head len

-- The tests on the twelve bytes of the frame's head.
abbrev pub frame_head : Source → ℕ → (probe : Bool) → Bytes → Run FrameAt
frame_head src off probe head =
    let len = get_u32 (drop 4 head) in
    if not (equal (take 4 head) frame_sync)
    then pure (FrameAt.bad FindingCode.bad_sync false)
    else if len == 0 || ltb src.max_rec len
    then pure (FrameAt.bad FindingCode.bad_length false)
    else if ltb src.size (off + frame_overhead + len)
    then pure (FrameAt.bad FindingCode.bad_length true)
    else if probe
    then frame_probe src off head len
    else frame_payload src off head len

unfoldable pub frame_at : Source → ℕ → (probe : Bool) → Run FrameAt
unfolding read
frame_at src off probe =
    if ltb (src.size - off) frame_overhead
    then pure (FrameAt.bad FindingCode.bad_length true)
    else read src off frame_overhead >>= λ head. frame_head src off probe head

abbrev pub sequence_finding : Source → JournalRecord → ℕ → SegScan → SegScan
sequence_finding src rec off s =
    let next = (s.last + 1) % 0x1_0000_0000_0000_0000 in
    if rec.stream_sequence == next
    then record s { last = rec.stream_sequence }
    else if ltb next rec.stream_sequence
    then record (add src FindingCode.seq_gap off 0 next rec.stream_sequence "" s) {
      last = rec.stream_sequence;
    }
    else add src FindingCode.seq_regression off 0 next rec.stream_sequence "" s

abbrev pub type_finding : Source → JournalRecord → ℕ → SegScan → SegScan
type_finding src rec off s =
    if JournalRecord.body_type rec == JournalRecord.unspecified
    then add src FindingCode.unknown_record_type off 0 0 (sign_extend rec.type) "" s
    else s

abbrev pub count_record : SegScan → SegScan
count_record s = record s {
  rep = record s.rep { records = s.rep.records + 1; last_sequence = s.last };
}

abbrev pub visit_result : (accepted : Bool) → Run (Unit {0})
visit_result true s = (Answer.val tt, s)
visit_result false s = (Answer.stop ScanError.visit_failed, s)

unfoldable pub deliver : Source → JournalRecord → ℕ → Run (Unit {0})
unfolding add
deliver src rec off = λ s.
    let scanned : Scanned = record { rec = rec; segment = src.idx; offset = off } in
    let t = count_record (type_finding src rec off (sequence_finding src rec off s)) in
    let called = record t { visited = t.visited ++ scanned ∷ [] } in
    visit_result (src.visit scanned) called

-- `boundary`: the first sequence of the segment against the last of the previous one.
unfoldable pub boundary : Source → ℕ → SegScan → SegScan
unfolding add
boundary src prev s =
    let first = s.hdr.first_sequence in
    let next = (prev + 1) % 0x1_0000_0000_0000_0000 in
    if first == next
    then s
    else if leb first prev
    then add src FindingCode.segment_order 0 0 next first "segment boundary" s
    else add src FindingCode.seq_gap 0 0 next first "segment boundary" s

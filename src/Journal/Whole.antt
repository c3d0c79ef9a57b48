-- ===== src/Journal/Whole.antt =====
-- internal/flightrec/journal/scan.go: `ScanSegment` as a whole.
use dev_cadence.Prelude.{
  ℕ, ◌+◌, ◌-◌, ◌%◌, ◌≤◌, ◌≡◌, ◌≢◌, refl, String, Bool, true, false, not, Option, none, some, [],
  ◌∷◌, inl, inr, ltb, leb, ◌||◌, ◌&&◌, if◌then◌else◌, Bool-cases, arith,
}
use dev_cadence.Bytes.{Bytes, ◌==◌}
use dev_cadence.Wire.Decoder.{Decoded}
use dev_cadence.Wire.Messages.SegmentHeader
use dev_cadence.Wire.Messages.SegmentHeader.{SegmentHeader}
use dev_cadence.Journal.Machine.{Source, SegScan, stuck, Answer, continue}
use dev_cadence.Journal.Scanner.{
  Header, starts, damaged, parse_header, header_rest, fixed_fault, header_fault, header_result,
  decoded_header, boundary,
}
use dev_cadence.Journal.Segment.{ScanOptions, enter, after_header, initial, scan_source}
use dev_cadence.Journal.Rules.{Ends, val, stop, bind_rule}
use dev_cadence.Journal.Reading.{read-Ends}
use dev_cadence.Journal.Report.{Sound, Sound-mono, Quiet-Sound, add-Sound}
use dev_cadence.Journal.Frame.{get_u32, header_fixed}
use dev_cadence.Journal.Crc.{checksum}
use dev_cadence.Bytes.{take, drop}
use dev_cadence.Journal.Ending.{loop-Ends}

-- The records start inside the segment.
abbrev Opened : Source → Header → SegScan → Type 0
Opened src (damaged detail) t = Sound src 0 t
Opened src (starts o) t = (o ≤ src.size) × Sound src 0 t

decoded-Opened :
    (src : Source) (end : ℕ) (d : Decoded SegmentHeader) (s : SegScan)
    → end ≤ src.size
    → Sound src 0 s
    → Ends (Sound src 0) (Opened src) (decoded_header src end d s)
unfolding continue
decoded-Opened src end (Decoded.fail x) s fits h = val h
decoded-Opened src end (Decoded.ok hdr) s fits h = stored (header_fault src.idx hdr)
  where
    sound : Sound src 0 (record s { hdr = hdr })
    sound = record { placed = h.placed; counted = h.counted; laid = h.laid; cached = h.cached }

    stored :
        (o : Option String)
        → Ends (Sound src 0) (Opened src) (Answer.val (header_result end o), record s { hdr = hdr })
    stored none = val (fits, sound)
    stored (some detail) = val sound

rest-Opened :
    (src : Source) (fixed : Bytes) (meta_len : ℕ) (fault : Option String) (s : SegScan)
    → fixed_fault src.size fixed meta_len ≡ fault
    → Sound src 0 s
    → Ends (Sound src 0) (Opened src) (header_rest src fixed meta_len fault s)
rest-Opened src fixed meta_len (some detail) s e h = val h
rest-Opened src fixed meta_len none s e h =
    bind_rule (read-Ends src header_fixed (meta_len + 4) s) (λ t q. Quiet-Sound q h)
      (λ rest t q.
        checked (checksum (fixed ∷ take meta_len rest ∷ []) == get_u32 (drop meta_len rest)) rest t
          (Quiet-Sound q h))
  where
    checked :
        (same : Bool) (rest : Bytes) (t : SegScan)
        → Sound src 0 t
        → Ends (Sound src 0) (Opened src) (
            (if not same
                then (λ u. (Answer.val (damaged "header checksum mismatch"), u))
                else decoded_header src
                    (header_fixed + meta_len + 4)
                    (SegmentHeader.unmarshal src.protowire (take meta_len rest)))
              t)
    checked true rest t x = decoded-Opened src _ _ t (ground arith) x
    checked false rest t x = val x

header-Opened :
    (src : Source) (s : SegScan)
    → Sound src 0 s
    → Ends (Sound src 0) (Opened src) (parse_header src s)
unfolding parse_header
header-Opened src s h = elim (Bool-cases (ltb src.size header_fixed)) [
  | inl e ↦ rw e (val h)
  | inr e ↦ rw e (
      bind_rule (read-Ends src 0 header_fixed s) (λ t q. Quiet-Sound q h)
        (λ fixed t q. rest-Opened src fixed (get_u32 (drop 12 fixed)) _ t refl (Quiet-Sound q h)))
]

boundary-Sound :
    (src : Source) (prev : ℕ) (s : SegScan) → Sound src 0 s → Sound src 0 (boundary src prev s)
unfolding boundary
boundary-Sound src prev s h =
    let next = (prev + 1) % 0x1_0000_0000_0000_0000 in
    elim (Bool-cases (s.hdr.first_sequence == next)) [
      | inl a ↦ rw a h
      | inr a ↦ rw a (elim (Bool-cases (leb s.hdr.first_sequence prev)) [
        | inl b ↦
            rw b
              (add-Sound src _ 0 0 next _ "segment boundary" s (omega arith, inr (omega arith)) h)
        | inr b ↦
            rw b
              (add-Sound src _ 0 0 next _ "segment boundary" s (omega arith, inr (omega arith)) h)
      ])
    ]

entered-Sound :
    (src : Source) (opt : ScanOptions) (s : SegScan) → Sound src 0 s → Sound src 0 (enter src opt s)
entered-Sound src opt s h =
    checked (not opt.skip_boundary && (ltb 0 opt.prev_last_sequence || opt.has_prev))
  where
    t : SegScan
    t = record s {
      rep = record s.rep { header_ok = true; first_sequence = s.hdr.first_sequence };
      last = s.hdr.first_sequence - 1;
    }

    sound : Sound src 0 t
    sound = record { placed = h.placed; counted = h.counted; laid = h.laid; cached = h.cached }

    checked : (b : Bool) → Sound src 0 (if b then boundary src opt.prev_last_sequence t else t)
    checked true = boundary-Sound src opt.prev_last_sequence t sound
    checked false = sound

after-Ends :
    (src : Source) (opt : ScanOptions) (x : Header) (s : SegScan)
    → Opened src x s
    → Ends (Sound src src.size) (λ u t. Sound src src.size t) (after_header src opt x s)
unfolding continue
after-Ends src opt (damaged detail) s h = val (
    Sound-mono (omega arith)
      (add-Sound src _ 0 src.size 0 0 detail s (omega arith, inr (omega arith)) h))
after-Ends src opt (starts o) s (fits, h) =
    loop-Ends src src.size o (enter src opt s) (omega arith) fits
      (Sound-mono (omega arith) (entered-Sound src opt s h))

source-Ends :
    (src : Source) (opt : ScanOptions)
    → Ends (Sound src src.size) (λ u t. Sound src src.size t) (scan_source src opt)
unfolding scan_source
source-Ends src opt =
    bind_rule
      (header-Opened src (initial src)
        (record { placed = tt; counted = refl; laid = omega arith; cached = inl refl }))
      (λ t h. Sound-mono (omega arith) h) (λ x t h. after-Ends src opt x t h)

ending :
    {src : Source} {r : Answer (Unit {0}) × SegScan}
    → Ends (Sound src src.size) (λ u t. Sound src src.size t) r
    → (r.0 ≢ Answer.stop stuck) × Sound src src.size r.1
ending (val h) = (λ e. cc, h)
ending (stop ne h) = (λ e. ne (cc), h)

-- Whatever the reader answers, the file holds and the visitor says, the loops of `ScanSegment` end:
-- those over the frames, over the candidates of a search, and over the chunks of the file. The scan
-- ends with a report, or with an error of the reader or of the visitor.
pub scan_segment_ends :
    (src : Source) (opt : ScanOptions) → (scan_source src opt).0 ≢ Answer.stop stuck
scan_segment_ends src opt = (ending (source-Ends src opt)).0

-- Whatever the segment holds, and also where the scan ends with an error: each finding points into
-- the segment, and the bytes that it says were skipped lie there too unless the search was abandoned;
-- each record that the visitor has seen stands in a frame that the reader gives at the record's offset,
-- with the sync word, the payload's length, which is not zero and within the limit, and the right
-- checksum in its head, and a payload that decodes to the record, which validates; each frame ends,
-- with the whole payload, before the next one starts, and the last one inside the segment; the report
-- counts as many records as the visitor has seen.
pub scan_segment_Sound :
    (src : Source) (opt : ScanOptions) → Sound src src.size (scan_source src opt).1
scan_segment_Sound src opt = (ending (source-Ends src opt)).1

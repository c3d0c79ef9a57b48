-- ===== src/Journal/Tests/Witnesses.antt =====
-- internal/flightrec: the theorems of the codec and the scanner at concrete segments.
use dev_cadence.Prelude.{
  ◌↔◌, ◌+◌, ◌≤◌, ◌≡◌, ◌≢◌, refl, sym, ap, length-append, true, false, [], ◌∷◌, ◌++◌, length, arith,
}
use dev_cadence.Bytes.{Bytes, take, drop, length-take}
use dev_cadence.Errs.{ok}
use dev_cadence.Wire.Decoder
use dev_cadence.Wire.Decoder.Outcome.{Leads, scan-Leads}
use dev_cadence.Wire.Decoder.{Decoded, after_tag}
use dev_cadence.Wire.Messages.JournalRecord
use dev_cadence.Wire.Messages.JournalRecord.{JournalRecord}
use dev_cadence.Wire.RoundTrip.JournalRecord.{unmarshal-marshal}
use dev_cadence.Wire.Tests.Protowire.{plain, plain-Laws}
use dev_cadence.Wire.Tests.Records.{stored, stored-IsEncodable}
use dev_cadence.Journal.Frame.{
  Limits, normalize, put_u32, min_segment_bytes, max_health_bytes, hard_max_record_bytes,
  frame_overhead, encode_header, encode_frame,
}
use dev_cadence.Journal.Machine.{SegScan, Answer, stuck}
use dev_cadence.Journal.Scanner.{valid, frame_at}
use dev_cadence.Journal.Segment.{initial, scan_source}
use dev_cadence.Journal.Report.{Sound}
use dev_cadence.Journal.Whole.{scan_segment_ends, scan_segment_Sound}
use dev_cadence.Journal.Intact.{ChunkOf, frame_at-encode_frame}
use dev_cadence.Journal.Room.{normalize_room}
use dev_cadence.Journal.Tests.Samples.{
  plain_options, memory, memory-Reads, sample, stored_payload_length,
}

-- Two bytes are skipped, and the frame behind them is torn.
abbrev damaged : Bytes
damaged = sample (1 ∷ 2 ∷ 70 ∷ 82 ∷ 77 ∷ 49 ∷ [])

scan_segment_ends_example : (scan_source (memory damaged) plain_options).0 ≢ Answer.stop stuck
scan_segment_ends_example = scan_segment_ends (memory damaged) plain_options

scan_segment_Sound_example :
    Sound (memory damaged) (length damaged) (scan_source (memory damaged) plain_options).1
scan_segment_Sound_example = scan_segment_Sound (memory damaged) plain_options

abbrev framed : Bytes
framed = 9 ∷ (encode_frame (JournalRecord.marshal plain stored).0 ++ (3 ∷ []))

length-framed : 14 ≤ length framed
unfolding encode_frame put_u32
length-framed =
    let stored_bytes = (JournalRecord.marshal plain stored).0 in
    omega (arith, length-append stored_bytes (3 ∷ []), stored_payload_length)

-- The head of the frame stands in the chunk that is cached, and the payload does not.
abbrev searched : SegScan
searched = record (initial (memory framed)) { c_buf = take 14 framed; c_off = 0 }

searched_chunk : 14 ≤ length framed → ChunkOf framed searched
unfolding drop
searched_chunk h = ap (λ n. take n framed) (sym (length-take 14 framed h))

frame_at-encode_frame_example : frame_at (memory framed) 1 false searched ≡ (
  Answer.val (valid stored (frame_overhead + length (JournalRecord.marshal plain stored).0)),
  searched,
)
frame_at-encode_frame_example =
    frame_at-encode_frame (memory framed) (9 ∷ []) (JournalRecord.marshal plain stored).0 (3 ∷ [])
      stored searched (memory-Reads framed) (searched_chunk length-framed)
      (omega (arith, stored_payload_length)) (omega (arith, stored_payload_length)) (omega arith)
      (unmarshal-marshal plain plain-Laws stored stored-IsEncodable).1 stored_validates
  where
    stored_validates : JournalRecord.validate stored ≡ true
    stored_validates =
        unfold JournalRecord.validate JournalRecord.body_type JournalRecord.body_count in refl

abbrev small_limits : Limits
small_limits = record { max_record_bytes = 4096; max_segment_bytes = 0 }

abbrev accepted_limits : Limits
accepted_limits = record { max_record_bytes = 4096; max_segment_bytes = 67108864 }

accepted : normalize small_limits ≡ ok accepted_limits
unfolding normalize min_segment_bytes
accepted = refl

normalize_room_example :
    (max_health_bytes ≤ 4096)
    × (4096 ≤ hard_max_record_bytes)
    × (length (
          encode_header (8 ∷ 1 ∷ [])
          ++ (encode_frame (8 ∷ [])
              ++ (encode_frame [] ++ (encode_frame (1 ∷ []) ++ encode_frame (8 ∷ 1 ∷ [])))))
        ≤ 67108864)
normalize_room_example =
    normalize_room small_limits accepted_limits (8 ∷ 1 ∷ []) (8 ∷ []) [] (1 ∷ []) (8 ∷ 1 ∷ [])
      accepted (omega arith) (omega arith) (omega arith) (omega arith) (omega arith)

-- A known field, and one with a number that the message does not know.
abbrev two_fields : Bytes
two_fields = 8 ∷ 1 ∷ 120 ∷ 5 ∷ []

abbrev with_unknown : JournalRecord
with_unknown = record JournalRecord.empty { schema_version = 1; unknown = 120 ∷ 5 ∷ [] }

scan-Leads_example :
    (Decoder.scan plain (JournalRecord.fields plain 0) two_fields JournalRecord.empty
      ≡ Decoded.ok with_unknown)
    ↔ Leads plain
        (JournalRecord.fields plain 0)
        two_fields
        JournalRecord.empty
        (Decoded.ok with_unknown)
scan-Leads_example =
    scan-Leads plain plain-Laws (JournalRecord.fields plain 0) two_fields JournalRecord.empty
      (Decoded.ok with_unknown)

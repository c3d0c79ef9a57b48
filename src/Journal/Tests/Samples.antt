-- ===== src/Journal/Tests/Samples.antt =====
-- internal/flightrec/journal: segments in memory.
use dev_cadence.Prelude.{
  ℕ, ◌+◌, ◌≡◌, refl, true, false, Option, none, some, List, [], ◌∷◌, ◌++◌, length, leb,
  if◌then◌else◌, arith,
}
use dev_cadence.Bytes.{Bytes, take, drop, valid_utf8}
use dev_cadence.Wire.Encoder
use dev_cadence.Wire.Encoder.{
  str, varint, int32, int64, present, bytes, msg, each, limit, unknown, tag,
}
use dev_cadence.Wire.Messages.OperationEnd
use dev_cadence.Wire.Messages.Stamp
use dev_cadence.Wire.Messages.SegmentHeader
use dev_cadence.Wire.Messages.SegmentHeader.{SegmentHeader}
use dev_cadence.Wire.Messages.JournalRecord
use dev_cadence.Wire.Messages.JournalRecord.{JournalRecord}
use dev_cadence.Wire.Tests.Protowire.{plain, plain-Laws}
use dev_cadence.Wire.Tests.Records.{stored, stored-IsEncodable}
use dev_cadence.Wire.RoundTrip.Children.{Foreign}
use dev_cadence.Wire.RoundTrip.JournalRecord.{IsEncodable}
use dev_cadence.Wire.RoundTrip.SegmentHeader as TripHeader
use dev_cadence.Journal.Frame.{encode_header, encode_frame}
use dev_cadence.Journal.Machine.{Source}
use dev_cadence.Journal.Segment.{ScanOptions, source}
use dev_cadence.Journal.Intact.{Reads}
use dev_cadence.Journal.RoundTrip.{IsSegment}

abbrev pub first_header : SegmentHeader
first_header = record SegmentHeader.empty {
  schema_version = 1;
  node_id = 110 ∷ [];
  runtime_id = 114 ∷ [];
  stream_id = 115 ∷ [];
  segment_index = 1;
  first_sequence = 3;
}

unfoldable pub in_memory : Bytes → ℕ → ℕ → Option Bytes
in_memory content off n =
    if leb (off + n) (length content) then some (take n (drop off content)) else none

abbrev pub plain_options : ScanOptions
plain_options = record {
  limits = record { max_record_bytes = 0; max_segment_bytes = 0 };
  max_resync_bytes = 0;
  assume_live_tail = false;
  prev_last_sequence = 0;
  skip_boundary = false;
  has_prev = false;
}

abbrev pub memory : Bytes → Source
memory content = source plain (in_memory content) (length content) 1 plain_options (λ v. true)

pub memory-Reads : (content : Bytes) → Reads (memory content) content
unfolding in_memory
memory-Reads content = record { sized = refl; bytes = λ off n fits. ground arith }

abbrev pub next_record : JournalRecord
next_record = record stored { stream_sequence = 4 }

next_record-IsEncodable : IsEncodable plain next_record
unfolding JournalRecord.body_count
next_record-IsEncodable = record {
  schema_version_fits = stored-IsEncodable.schema_version_fits;
  event_id_utf8 = stored-IsEncodable.event_id_utf8;
  node_id_utf8 = stored-IsEncodable.node_id_utf8;
  runtime_id_utf8 = stored-IsEncodable.runtime_id_utf8;
  stream_sequence_fits = omega arith;
  type_fits = stored-IsEncodable.type_fits;
  durability_fits = stored-IsEncodable.durability_fits;
  stream_id_utf8 = stored-IsEncodable.stream_id_utf8;
  start_fits = stored-IsEncodable.start_fits;
  end_fits = stored-IsEncodable.end_fits;
  observation_fits = stored-IsEncodable.observation_fits;
  health_fits = stored-IsEncodable.health_fits;
  unknown_foreign = stored-IsEncodable.unknown_foreign;
  one_body = stored-IsEncodable.one_body;
}

first_header-IsEncodable : TripHeader.IsEncodable plain first_header
unfolding valid_utf8
first_header-IsEncodable = record {
  schema_version_fits = omega arith;
  node_id_utf8 = refl;
  runtime_id_utf8 = refl;
  stream_id_utf8 = refl;
  segment_index_fits = omega arith;
  first_sequence_fits = omega arith;
  created_at_fits = λ c e. cc;
  writer_pid_fits = omega arith;
  writer_version_utf8 = refl;
  max_record_bytes_fits = omega arith;
  mono_origin_wall_unix_nanos_fits = omega arith;
  unknown_foreign = Foreign.nil;
}

abbrev pub two_records : List JournalRecord
two_records = stored ∷ next_record ∷ []

abbrev pub sample : Bytes → Bytes
sample tail =
    encode_header (SegmentHeader.marshal plain first_header).0
    ++ ((encode_frame (JournalRecord.marshal plain stored).0
          ++ (encode_frame (JournalRecord.marshal plain next_record).0 ++ []))
        ++ tail)

header_length : length (SegmentHeader.marshal plain first_header).0 ≡ 15
unfolding SegmentHeader.marshal Encoder.marshal SegmentHeader.encode str varint int64 present
    unknown tag plain valid_utf8
header_length = refl

pub stored_payload_length : length (JournalRecord.marshal plain stored).0 ≡ 55
unfolding JournalRecord.marshal Encoder.marshal JournalRecord.encode OperationEnd.encode
    Stamp.encode str varint int32 int64 present bytes msg each limit unknown tag plain valid_utf8
stored_payload_length = refl

next_length : length (JournalRecord.marshal plain next_record).0 ≡ 55
unfolding JournalRecord.marshal Encoder.marshal JournalRecord.encode OperationEnd.encode
    Stamp.encode str varint int32 int64 present bytes msg each limit unknown tag plain valid_utf8
next_length = refl

-- A segment with two records and something behind them.
pub memory-IsSegment :
    (tail : Bytes)
    → IsSegment
        (memory (sample tail))
        (record plain_options { prev_last_sequence = 2 })
        first_header
        two_records
        tail
unfolding plain JournalRecord.validate JournalRecord.body_type JournalRecord.body_count
memory-IsSegment tail = record {
  laws = plain-Laws;
  reads = memory-Reads (sample tail);
  accepts = λ v. refl;
  word = omega arith;
  encodable = first_header-IsEncodable;
  not_large = omega (arith, header_length);
  versioned = omega arith;
  indexed = refl;
  contiguous = refl;
  stored = (
    record {
      encodable = stored-IsEncodable;
      validates = refl;
      known = refl;
      fits = omega (arith, stored_payload_length);
      numbered = refl;
    },
    (
      record {
        encodable = next_record-IsEncodable;
        validates = refl;
        known = refl;
        fits = omega (arith, next_length);
        numbered = refl;
      },
      tt,
    ),
  );
}

-- ===== src/Journal/RoundTrip.antt =====
-- internal/flightrec/journal: a segment that was framed record by record, scanned by `ScanSegment`.
use dev_cadence.Prelude.{◌+◌, ◌-◌, ◌≤◌, ◌<◌, ◌≡◌, true, List, ◌++◌, length}
use dev_cadence.Bytes.{Bytes}
use dev_cadence.Wire.Proto.{Laws}
use dev_cadence.Wire.Decoder
use dev_cadence.Wire.Messages.SegmentHeader
use dev_cadence.Wire.Messages.SegmentHeader.{SegmentHeader}
use dev_cadence.Wire.Messages.JournalRecord.{JournalRecord}
use dev_cadence.Wire.RoundTrip.SegmentHeader as TripHeader
use dev_cadence.Journal.Frame.{max_header_meta, encode_header}
use dev_cadence.Journal.Findings.{Scanned}
use dev_cadence.Journal.Machine.{Source, SegScan}
use dev_cadence.Journal.Segment.{ScanOptions, initial}
use dev_cadence.Journal.Intact.{Reads}
use dev_cadence.Journal.Opening.{header_size}
use dev_cadence.Journal.Delivered.{frames, Stored, behind}

-- The bytes of a segment with the header `h`, the records `recs`, and `tail` behind them.
abbrev pub segment : Source → SegmentHeader → List JournalRecord → Bytes → Bytes
segment src h recs tail =
    encode_header (SegmentHeader.marshal src.protowire h).0 ++ (frames src recs ++ tail)

-- What a writer stores in a segment, and a scan of it: the reader gives the bytes, the visitor accepts
-- every record, and the scan is told the last sequence of the segment before.
pub record IsSegment (src : Source) (opt : ScanOptions) (h : SegmentHeader)
    (recs : List JournalRecord) (tail : Bytes) : Type 0 where
  pub laws : Laws src.protowire
  pub reads : Reads src (segment src h recs tail)
  pub accepts : (v : Scanned) → src.visit v ≡ true
  pub word : src.max_rec < 0x1_0000_0000
  pub encodable : TripHeader.IsEncodable src.protowire h
  pub not_large : length (SegmentHeader.marshal src.protowire h).0 ≤ max_header_meta
  pub versioned : 1 ≤ h.schema_version
  pub indexed : h.segment_index ≡ src.idx
  pub contiguous : opt.prev_last_sequence + 1 ≡ h.first_sequence
  pub stored : Stored src h.first_sequence recs

-- The state in which the loop begins.
abbrev pub entered : SegmentHeader → Source → SegScan
entered h src =
    let s = record (initial src) { hdr = h } in
    record s {
      rep = record s.rep { header_ok = true; first_sequence = h.first_sequence };
      last = h.first_sequence - 1;
    }

module _ (src : Source) (opt : ScanOptions) (h : SegmentHeader) (recs : List JournalRecord)
    (tail : Bytes) (v : IsSegment src opt h recs tail) where
  meta : Bytes
  meta = (SegmentHeader.marshal src.protowire h).0

  after_records : SegScan
  unfolding meta
  after_records = behind src (header_size meta) recs (entered h src)

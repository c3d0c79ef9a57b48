-- ===== src/Journal/Findings.antt =====
-- internal/flightrec/journal/scan.go: the findings and the reports of the scanner.
use dev_cadence.Prelude.{ℕ, String, Bool, true, false, List, [], ◌∷◌, ◌||◌}
use dev_cadence.Wire.Messages.JournalRecord.{JournalRecord}

pub data FindingCode : Type 0 where
  torn_tail bad_header bad_sync bad_length bad_crc decode_error seq_gap : FindingCode
  seq_regression segment_missing segment_order resync_abandoned : FindingCode
  unknown_record_type live_tail : FindingCode

pub data Severity : Type 0 where
  info warning : Severity

unfoldable pub severity : FindingCode → Severity
severity FindingCode.unknown_record_type = Severity.info
severity FindingCode.live_tail = Severity.info
severity FindingCode.torn_tail = Severity.warning
severity FindingCode.bad_header = Severity.warning
severity FindingCode.bad_sync = Severity.warning
severity FindingCode.bad_length = Severity.warning
severity FindingCode.bad_crc = Severity.warning
severity FindingCode.decode_error = Severity.warning
severity FindingCode.seq_gap = Severity.warning
severity FindingCode.seq_regression = Severity.warning
severity FindingCode.segment_missing = Severity.warning
severity FindingCode.segment_order = Severity.warning
severity FindingCode.resync_abandoned = Severity.warning

-- The texts of `detail` are without the numbers that the code prints into some of them.
pub record Finding : Type 0 where
  pub code : FindingCode
  pub severity : Severity
  pub segment : ℕ
  pub offset : ℕ
  pub skipped_bytes : ℕ
  pub expected : ℕ
  pub got : ℕ
  pub detail : String

pub record Scanned : Type 0 where
  pub rec : JournalRecord
  pub segment : ℕ
  pub offset : ℕ

pub record SegmentReport : Type 0 where
  pub index : ℕ
  pub size : ℕ
  pub header_ok : Bool
  pub first_sequence : ℕ
  pub last_sequence : ℕ
  pub records : ℕ
  pub findings : List Finding
  pub clean_eof : Bool

abbrev pub is_warning : Severity → Bool
is_warning Severity.warning = true
is_warning Severity.info = false

unfoldable pub has_warning : List Finding → Bool
has_warning [] = false
has_warning (f ∷ fs) = is_warning f.severity || has_warning fs

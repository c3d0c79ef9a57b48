-- ===== src/Journal/Segment.antt =====
-- internal/flightrec/journal/scan.go: `ScanSegment`.
use dev_cadence.Prelude.{
  ℕ, zero, suc, ◌+◌, ◌-◌, Bool, true, false, not, Option, none, some, [], ◌&&◌, ◌||◌, ltb,
  if◌then◌else◌,
}
use dev_cadence.Bytes.{Bytes, ◌==◌}
use dev_cadence.Wire.Proto.{Protowire}
use dev_cadence.Wire.Messages.SegmentHeader
use dev_cadence.Journal.Frame.{Limits, default_max_record_bytes}
use dev_cadence.Journal.Findings.{FindingCode, Scanned, has_warning}
use dev_cadence.Journal.Machine.{
  Source, SegScan, ScanError, Answer, Run, ◌>>=◌, pure, get_state, modify, add,
}
use dev_cadence.Journal.Scanner.{Header, parse_header, FrameAt, frame_at, deliver, boundary}
use dev_cadence.Journal.Resync.{Resync, resync}

pub record ScanOptions : Type 0 where
  pub limits : Limits
  pub max_resync_bytes : ℕ
  pub assume_live_tail : Bool
  pub prev_last_sequence : ℕ
  pub skip_boundary : Bool
  pub has_prev : Bool

abbrev pub default_max_resync : ℕ
default_max_resync = 16777216

-- How the loop goes on after the search behind a bad frame at `o`: at another offset, or not at all.
abbrev pub after_resync : Source → ℕ → FindingCode → Bool → Resync → Run (Option ℕ)
after_resync src o code torn (Resync.found p) =
    modify (add src code o (p - o) 0 0 "") >>= λ u. pure (some p)
after_resync src o code torn (Resync.lost true) = get_state >>= λ s.
    let detail = if s.budget_blown then "candidate verification budget exhausted" else "" in
    modify (add src FindingCode.resync_abandoned o src.max_resync 0 0 detail) >>= λ u. pure none
after_resync src o code torn (Resync.lost false) =
    modify (add src (if torn then FindingCode.torn_tail else code) o (src.size - o) 0 0 "") >>= λ u.
    pure none

abbrev pub after_frame : Source → ℕ → FrameAt → Run (Option ℕ)
after_frame src o (FrameAt.valid rec n) = deliver src rec o >>= λ u. pure (some (o + n))
after_frame src o (FrameAt.bad code torn) = resync src o >>= λ r. after_resync src o code torn r

-- One round of the loop at the offset `o`.
unfoldable pub scan_round : Source → ℕ → Run (Option ℕ)
unfolding add
scan_round src o = frame_at src o false >>= λ f. after_frame src o f

abbrev pub next_round : (ℕ → Run (Unit {0})) → Option ℕ → Run (Unit {0})
next_round next none = pure tt
next_round next (some o) = next o

abbrev pub finish : SegScan → SegScan
finish s = record s { rep = record s.rep { clean_eof = not (has_warning s.rep.findings) } }

-- `for o < size`, with fuel for the rounds that are left, and the statement behind the loop.
unfoldable pub scan_loop : Source → ℕ → ℕ → Run (Unit {0})
unfolding scan_round
scan_loop src zero o =
    if ltb o src.size then (λ s. (Answer.stop ScanError.stuck, s)) else modify finish
scan_loop src (suc fuel) o =
    let next = λ (n : ℕ). scan_loop src fuel n in
    if ltb o src.size then scan_round src o >>= (λ r. next_round next r) else modify finish

-- What is done with a header that holds.
abbrev pub enter : Source → ScanOptions → SegScan → SegScan
enter src opt s =
    let t = record s {
      rep = record s.rep { header_ok = true; first_sequence = s.hdr.first_sequence };
      last = s.hdr.first_sequence - 1;
    } in
    if not opt.skip_boundary && (ltb 0 opt.prev_last_sequence || opt.has_prev)
    then boundary src opt.prev_last_sequence t
    else t

abbrev pub after_header : Source → ScanOptions → Header → Run (Unit {0})
after_header src opt (Header.damaged detail) =
    modify (add src FindingCode.bad_header 0 src.size 0 0 detail)
after_header src opt (Header.starts o) = modify (enter src opt) >>= λ u. scan_loop src src.size o

abbrev pub initial : Source → SegScan
initial src = record {
  hdr = SegmentHeader.empty;
  last = 0;
  rep = record {
    index = src.idx;
    size = src.size;
    header_ok = false;
    first_sequence = 0;
    last_sequence = 0;
    records = 0;
    findings = [];
    clean_eof = false;
  };
  c_buf = [];
  c_off = 0;
  spent = 0;
  budget_blown = false;
  visited = [];
}

abbrev pub source :
    Protowire → (ℕ → ℕ → Option Bytes) → ℕ → ℕ → ScanOptions → (Scanned → Bool) → Source
source p read_at size idx opt visit = record {
  protowire = p;
  read_at = read_at;
  size = size;
  idx = idx;
  max_rec =
      if opt.limits.max_record_bytes == 0
      then default_max_record_bytes
      else opt.limits.max_record_bytes;
  max_resync = if opt.max_resync_bytes == 0 then default_max_resync else opt.max_resync_bytes;
  visit = visit;
}

-- The report and the calls of the visitor are in the state that is left, also beside an error.
unfoldable pub scan_source : Source → ScanOptions → Answer (Unit {0}) × SegScan
unfolding scan_loop
scan_source src opt = (parse_header src >>= λ h. after_header src opt h) (initial src)

unfoldable pub scan_segment :
    Protowire
    → (ℕ → ℕ → Option Bytes)
    → ℕ
    → ℕ
    → ScanOptions
    → (Scanned → Bool)
    → Answer (Unit {0}) × SegScan
scan_segment p read_at size idx opt visit = scan_source (source p read_at size idx opt visit) opt

-- ===== src/Journal/Machine.antt =====
-- internal/flightrec/journal/scan.go: `segScan`, how its methods are chained, and its reads.
use dev_cadence.Prelude.{
  ℕ, ◌+◌, ◌-◌, String, Bool, Option, none, some, List, [], ◌∷◌, ◌++◌, ◌&&◌, length, leb,
  if◌then◌else◌,
}
use dev_cadence.Bytes.{Bytes, ◌==◌, take, drop}
use dev_cadence.Wire.Proto.{Protowire}
use dev_cadence.Wire.Messages.SegmentHeader.{SegmentHeader}
use dev_cadence.Journal.Frame.{frame_overhead}
use dev_cadence.Journal.Findings.{FindingCode, Finding, Scanned, SegmentReport, severity}

-- `io.ReaderAt`: the bytes that are copied from an offset, or a failure. And what does not change during a scan; `visit`
-- says whether the visitor accepts a record.
pub record Source : Type 0 where
  pub protowire : Protowire
  pub read_at : ℕ → ℕ → Option Bytes
  pub size : ℕ
  pub idx : ℕ
  pub max_rec : ℕ
  pub max_resync : ℕ
  pub visit : Scanned → Bool

-- What changes: `visited` holds the calls of the visitor so far.
pub record SegScan : Type 0 where
  pub hdr : SegmentHeader
  pub last : ℕ
  pub rep : SegmentReport
  pub c_buf : Bytes
  pub c_off : ℕ
  pub spent : ℕ
  pub budget_blown : Bool
  pub visited : List Scanned

-- Errors of the reader and of the visitor. `stuck` is no error of the code: a loop ran out of fuel.
pub data ScanError : Type 0 where
  read_failed visit_failed stuck : ScanError

pub data Answer (A : Type 0) : Type 0 where
  val : A → Answer A
  stop : ScanError → Answer A

abbrev pub Run : Type 0 → Type 0
Run A = SegScan → Answer A × SegScan

unfoldable pub continue : {A B : Type 0} → (A → Run B) → Answer A × SegScan → Answer B × SegScan
continue f (Answer.val a, s) = f a s
continue f (Answer.stop x, s) = (Answer.stop x, s)

infixl 5 ◌>>=◌
abbrev pub ◌>>=◌ : {A B : Type 0} → Run A → (A → Run B) → Run B
m >>= f = λ s. continue f (m s)

abbrev pub pure : {A : Type 0} → A → Run A
pure a = λ s. (Answer.val a, s)

abbrev pub get_state : Run SegScan
get_state = λ s. (Answer.val s, s)

abbrev pub modify : (SegScan → SegScan) → Run (Unit {0})
modify f = λ s. (Answer.val tt, f s)

unfoldable pub add : Source → FindingCode → ℕ → ℕ → ℕ → ℕ → String → SegScan → SegScan
add src code off skipped expected got detail s =
    let finding : Finding = record {
      code = code;
      severity = severity code;
      segment = src.idx;
      offset = off;
      skipped_bytes = skipped;
      expected = expected;
      got = got;
      detail = detail;
    } in
    record s { rep = record s.rep { findings = s.rep.findings ++ finding ∷ [] } }

-- A read that copies another number of bytes than `n` has failed.
abbrev pub answer_of : ℕ → Option Bytes → Answer Bytes
answer_of n none = Answer.stop ScanError.read_failed
answer_of n (some b) = if length b == n then Answer.val b else Answer.stop ScanError.read_failed

-- Whether `n` bytes at `off` stand in the chunk that is cached.
abbrev pub in_cache : SegScan → ℕ → ℕ → Bool
in_cache s off n = leb s.c_off off && leb (off + n) (s.c_off + length s.c_buf)

unfoldable pub read : Source → ℕ → ℕ → Run Bytes
read src off n = λ s.
    if leb n (frame_overhead + 1) && in_cache s off n
    then (Answer.val (take n (drop (off - s.c_off) s.c_buf)), s)
    else (answer_of n (src.read_at off n), s)

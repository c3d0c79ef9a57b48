-- ===== src/Journal/Resync.antt =====
-- internal/flightrec/journal/scan.go: the search for the next valid frame behind damage.
use dev_cadence.Prelude.{
  ℕ, zero, suc, ◌+◌, ◌-◌, Bool, true, false, Option, none, some, [], ◌∷◌, ◌&&◌, ◌||◌, length, ltb,
  leb, if◌then◌else◌,
}
use Prim.Native.Nat.{min}
use dev_cadence.Bytes.{Bytes, equal, take, drop}
use dev_cadence.Journal.Frame.{frame_sync}
use dev_cadence.Journal.Machine.{
  Source, SegScan, ScanError, Answer, Run, ◌>>=◌, pure, get_state, modify, answer_of,
}
use dev_cadence.Journal.Scanner.{FrameAt, frame_at}

abbrev pub one_later : Option ℕ → Option ℕ
one_later none = none
one_later (some i) = some (suc i)

-- `bytes.Index(b, frameSync[:])`: the first place where the marker starts.
unfoldable pub index_sync : Bytes → Option ℕ
index_sync [] = none
index_sync (x ∷ xs) =
    let later = index_sync xs in
    if equal (take 4 (x ∷ xs)) frame_sync then some 0 else one_later later

abbrev pub scan_chunk : ℕ
scan_chunk = 65536

abbrev pub cache_chunk : ℕ → Answer Bytes → Run (Unit {0})
cache_chunk from (Answer.stop x) = λ s. (Answer.stop x, s)
cache_chunk from (Answer.val buf) = modify (λ s. record s { c_buf = buf; c_off = from })

abbrev pub chunk_answer : Source → ℕ → ℕ → Answer Bytes
chunk_answer src from n = answer_of n (src.read_at from n)

-- The chunk at `from` is read unless the cache holds the first four bytes there.
unfoldable pub fill : Source → ℕ → ℕ → Run (Unit {0})
fill src from hi = λ s.
    if ltb from s.c_off || ltb (s.c_off + length s.c_buf) (from + 4)
    then cache_chunk from (chunk_answer src from (min scan_chunk (hi - from))) s
    else (Answer.val tt, s)

-- `end := min(int64(len(s.cBuf)), hi-s.cOff)`
abbrev pub chunk_end : SegScan → ℕ → ℕ
chunk_end s hi = min (length s.c_buf) (hi - s.c_off)

-- The marker in the chunk, or the search goes on at `behind`.
abbrev pub find_result : (ℕ → Run (Option ℕ)) → ℕ → ℕ → Option ℕ → Run (Option ℕ)
find_result next from behind none = next behind
find_result next from behind (some i) = pure (some (from + i))

abbrev pub find_step : (ℕ → Run (Option ℕ)) → ℕ → ℕ → SegScan → Run (Option ℕ)
find_step next from hi s =
    let end = chunk_end s hi in
    find_result next from (s.c_off + end - 4 + 1)
      (index_sync (take (end - (from - s.c_off)) (drop (from - s.c_off) s.c_buf)))

-- `for from+4 <= hi`, with fuel for the rounds that are left.
unfoldable pub find_loop : Source → ℕ → ℕ → ℕ → Run (Option ℕ)
unfolding fill
find_loop src zero from hi =
    if leb (from + 4) hi then (λ s. (Answer.stop ScanError.stuck, s)) else pure none
find_loop src (suc fuel) from hi =
    let next = λ (n : ℕ). find_loop src fuel n hi in
    if leb (from + 4) hi
    then fill src from hi >>= (λ u. get_state >>= λ s. find_step next from hi s)
    else pure none

unfoldable pub find_sync : Source → ℕ → ℕ → Run (Option ℕ)
unfolding find_loop
find_sync src from to = let hi = min (to + 4) src.size in find_loop src (hi - from) from hi

-- Whether the frame is a valid one of this stream.
abbrev pub of_stream : FrameAt → SegScan → Bool
of_stream (FrameAt.bad code torn) s = false
of_stream (FrameAt.valid rec n) s =
    ((equal rec.node_id s.hdr.node_id && equal rec.runtime_id s.hdr.runtime_id)
      && equal rec.stream_id s.hdr.stream_id)
    && leb s.last rec.stream_sequence

unfoldable pub candidate : Source → ℕ → Run Bool
candidate src off = frame_at src off true >>= λ f. get_state >>= λ s. pure (of_stream f s)

-- The offset of the frame that was found, or whether the search was abandoned.
pub data Resync : Type 0 where
  found : ℕ → Resync
  lost : (abandoned : Bool) → Resync

-- The end of a round: a blown budget ends the search even when the candidate could not be read.
abbrev pub judge : (Run Resync) → ℕ → Answer Bool × SegScan → Answer Resync × SegScan
judge next at (Answer.val ok, s) =
    if s.budget_blown
    then (Answer.val (Resync.lost true), s)
    else if ok
    then (Answer.val (Resync.found at), s)
    else next s
judge next at (Answer.stop x, s) =
    if s.budget_blown then (Answer.val (Resync.lost true), s) else (Answer.stop x, s)

abbrev pub try_at : Source → (ℕ → Run Resync) → Bool → Option ℕ → Run Resync
try_at src next abandoned none = pure (Resync.lost abandoned)
try_at src next abandoned (some at) = λ s. judge (next (at + 1)) at (candidate src at s)

unfoldable pub resync_loop : Source → ℕ → Bool → ℕ → ℕ → Run Resync
unfolding find_sync candidate
resync_loop src zero abandoned q hi = λ s. (Answer.stop ScanError.stuck, s)
resync_loop src (suc fuel) abandoned q hi =
    let next = λ (n : ℕ). resync_loop src fuel abandoned n hi in
    find_sync src q hi >>= λ p. try_at src next abandoned p

unfoldable pub resync : Source → ℕ → Run Resync
unfolding resync_loop
resync src off =
    let hi = min (off + src.max_resync) (src.size - 1) in
    let abandoned = ltb (off + src.max_resync) (src.size - 1) in
    modify (λ s. record s { spent = 0; budget_blown = false }) >>= λ u.
    resync_loop src (hi - off + 2) abandoned (off + 1) hi

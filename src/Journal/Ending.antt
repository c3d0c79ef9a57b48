-- ===== src/Journal/Ending.antt =====
-- internal/flightrec/journal/scan.go: the methods of the scanner, up to the end of `ScanSegment`.
use dev_cadence.Prelude.{
  ℕ, zero, suc, ◌+◌, ◌-◌, ◌%◌, ◌≤◌, ◌<◌, ◌≡◌, ◌⊎◌, refl, Bool, true, false, Option, none, some, [],
  ◌∷◌, ◌++◌, inl, inr, length, length-append, ltb, Bool-cases, arith,
}
use Prim.Native.Nat.{min}
use dev_cadence.Bytes.{◌==◌}
use dev_cadence.Wire.Messages.JournalRecord
use dev_cadence.Wire.Messages.JournalRecord.{JournalRecord}
use dev_cadence.Journal.Frame.{frame_overhead}
use dev_cadence.Journal.Findings.{FindingCode, resync_abandoned, Scanned}
use dev_cadence.Journal.Machine.{Source, SegScan, Run, continue}
use dev_cadence.Journal.Scanner.{
  FrameAt, valid, bad, deliver, visit_result, sequence_finding, type_finding, count_record,
}
use dev_cadence.Journal.Resync.{Resync, found, lost}
use dev_cadence.Journal.Segment.{
  after_resync, after_frame, scan_round, next_round, finish, scan_loop,
}
use dev_cadence.Journal.Rules.{Cached, Ends, val, stop, bind_rule}
use dev_cadence.Journal.Bounds.{Framed, frame_at-Ends}
use dev_cadence.Journal.Search.{resync-Ends, Between}
use dev_cadence.Journal.Report.{FrameOf, Sound, Laid-append, Sound-mono, Quiet-Sound, add-Sound}

sequence-Sound :
    {o : ℕ} (src : Source) (rec : JournalRecord) (s : SegScan)
    → o ≤ src.size
    → Sound src o s
    → Sound src o (sequence_finding src rec o s)
sequence-Sound {o} src rec s fits h =
    let next = (s.last + 1) % 0x1_0000_0000_0000_0000 in
    elim (Bool-cases (rec.stream_sequence == next)) [
      | inl a ↦ rw a (moved h)
      | inr a ↦ rw a (elim (Bool-cases (ltb next rec.stream_sequence)) [
        | inl b ↦ rw b (moved (add-Sound src FindingCode.seq_gap o 0 next _ "" s here h))
        | inr b ↦ rw b (add-Sound src FindingCode.seq_regression o 0 next _ "" s here h)
      ])
    ]
  where
    here : {code : FindingCode} → (o ≤ src.size) × ((code ≡ resync_abandoned) ⊎ (o + 0 ≤ src.size))
    here = (fits, inr (omega arith))

    moved : {t : SegScan} {n : ℕ} → Sound src o t → Sound src o (record t { last = n })
    moved x = record { placed = x.placed; counted = x.counted; laid = x.laid; cached = x.cached }

type-Sound :
    {o : ℕ} (src : Source) (rec : JournalRecord) (s : SegScan)
    → o ≤ src.size
    → Sound src o s
    → Sound src o (type_finding src rec o s)
type-Sound src rec s fits h =
    elim (Bool-cases (JournalRecord.body_type rec == JournalRecord.unspecified)) [
      | inl a ↦
          rw a
            (add-Sound src FindingCode.unknown_record_type _ 0 0 _ "" s (fits, inr (omega arith)) h)
      | inr a ↦ rw a h
    ]

deliver-Ends :
    (src : Source) (rec : JournalRecord) (o n : ℕ) (s : SegScan)
    → (f : FrameOf src o rec) → n ≡ frame_overhead + length f.payload
    → o + n ≤ src.size
    → Sound src o s
    → Ends (Sound src (o + n)) (λ u t. Sound src (o + n) t) (deliver src rec o s)
unfolding deliver
deliver-Ends src rec o n s frame whole fits h = called (src.visit scanned)
  where
    scanned : Scanned
    scanned = record { rec = rec; segment = src.idx; offset = o }

    before : SegScan
    before = type_finding src rec o (sequence_finding src rec o s)

    after : SegScan
    after = record (count_record before) { visited = before.visited ++ scanned ∷ [] }

    sound : Sound src o before
    sound = type-Sound src rec _ (omega arith) (sequence-Sound src rec s (omega arith) h)

    done : Sound src (o + n) after
    done = record {
      placed = sound.placed;
      counted = omega (arith, length-append before.visited (scanned ∷ []), sound.counted);
      laid = Laid-append src 0 (o + n) before.visited scanned sound.laid frame (omega arith);
      cached = sound.cached;
    }

    called :
        (accepted : Bool)
        → Ends (Sound src (o + n)) (λ u t. Sound src (o + n) t) (visit_result accepted after)
    called true = val done
    called false = stop (λ e. cc) done

-- Where the loop stands after a round at `o`: at another offset behind it, or at its end.
abbrev After : Source → ℕ → Option ℕ → SegScan → Type 0
After src o none t = Sound src src.size t
After src o (some k) t = (o < k) × (k ≤ src.size) × Sound src k t

resync-Sound :
    (src : Source) (o : ℕ) (code : FindingCode) (torn : Bool) (r : Resync) (s : SegScan)
    → o < src.size
    → Between (o + 1) (min (o + src.max_resync) (src.size - 1)) r
    → Sound src o s
    → Ends (Sound src src.size) (λ x t. After src o x t) (after_resync src o code torn r s)
unfolding continue
resync-Sound src o code torn (found p) s fits (low, high) h = val (
  omega arith,
  omega arith,
  Sound-mono (omega arith)
      (add-Sound src code o (p - o) 0 0 "" s (omega arith, inr (omega arith)) h),
)
resync-Sound src o code torn (lost true) s fits at h = val (
    Sound-mono (omega arith) (add-Sound src resync_abandoned o _ 0 0 _ s (omega arith, inl refl) h))
resync-Sound src o code torn (lost false) s fits at h = val (
    Sound-mono (omega arith)
      (add-Sound src _ o (src.size - o) 0 0 "" s (omega arith, inr (omega arith)) h))

frame-Ends :
    (src : Source) (o : ℕ) (f : FrameAt) (s t : SegScan)
    → o < src.size
    → Framed src o f s t
    → Cached src s
    → Sound src o t
    → Ends (Sound src src.size) (λ x u. After src o x u) (after_frame src o f t)
frame-Ends src o (valid rec n) s t fits framed c h =
    let (frame, whole, inside) = framed.inside c rec n refl in
    bind_rule (deliver-Ends src rec o n t frame whole inside h) (λ u x. Sound-mono inside x)
      (λ u v x. val (omega arith, inside, x))
frame-Ends src o (bad code torn) s t fits framed c h =
    bind_rule (resync-Ends src o t fits) (λ u q. Sound-mono (omega arith) (Quiet-Sound q h))
      (λ r u (q, at). resync-Sound src o code torn r u fits at (Quiet-Sound q h))

round-Ends :
    (src : Source) (o : ℕ) (s : SegScan)
    → o < src.size
    → Sound src o s
    → Ends (Sound src src.size) (λ x t. After src o x t) (scan_round src o s)
unfolding scan_round
round-Ends src o s fits h =
    bind_rule (frame_at-Ends src o false s) (λ t q. Sound-mono (omega arith) (Quiet-Sound q h))
      (λ f t framed. frame-Ends src o f s t fits framed h.cached (Quiet-Sound framed.quiet h))

finish-Sound : {src : Source} {o : ℕ} {s : SegScan} → Sound src o s → Sound src o (finish s)
finish-Sound h = record { placed = h.placed; counted = h.counted; laid = h.laid; cached = h.cached }

next_round-Ends :
    (src : Source) (next : ℕ → Run (Unit {0})) (o : ℕ) (x : Option ℕ) (t : SegScan)
    → After src o x t
    → ((k : ℕ) (v : SegScan)
        → o < k
        → k ≤ src.size
        → Sound src k v
        → Ends (Sound src src.size) (λ u w. Sound src src.size w) (next k v))
    → Ends (Sound src src.size) (λ u w. Sound src src.size w) (next_round next x t)
next_round-Ends src next o none t at go = val at
next_round-Ends src next o (some k) t (lt, le, h) go = go k t lt le h

-- Every round goes on behind `o`, so that `size` rounds are enough.
pub loop-Ends :
    (src : Source) (fuel o : ℕ) (s : SegScan)
    → src.size - o ≤ fuel
    → o ≤ src.size
    → Sound src o s
    → Ends (Sound src src.size) (λ u t. Sound src src.size t) (scan_loop src fuel o s)
unfolding scan_loop
loop-Ends src zero o s enough fits h = rw (over) (val (finish-Sound (Sound-mono fits h)))
  where
    over : ltb o src.size ≡ false
    over = ground arith
loop-Ends src (suc fuel) o s enough fits h = elim (Bool-cases (ltb o src.size)) [
  | inr e ↦ rw e (val (finish-Sound (Sound-mono fits h)))
  | inl e ↦ rw e (
      bind_rule (round-Ends src o s (ground arith) h) (λ t x. x)
        (λ x t at.
          next_round-Ends src (λ k. scan_loop src fuel k) o x t at
            (λ k v lt le y. loop-Ends src fuel k v (omega arith) le y)))
]

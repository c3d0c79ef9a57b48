-- ===== src/Journal/Grows.antt =====
-- internal/flightrec/journal/scan.go: the calls of the visitor that a scan has made stay made.
use dev_cadence.Prelude.{
  ℕ, zero, suc, ◌<◌, ◌≡◌, refl, sym, ap, ◌∙◌, Bool, true, false, Option, none, some, List, [], ◌∷◌,
  ◌++◌, inl, inr, ltb, Bool-cases, arith,
}
use dev_cadence.Wire.Messages.JournalRecord.{JournalRecord}
use dev_cadence.Journal.Findings.{FindingCode, Scanned}
use dev_cadence.Journal.Machine.{Source, SegScan, Answer, Run, continue, add}
use dev_cadence.Journal.Scanner.{
  FrameAt, valid, bad, frame_at, deliver, visit_result, sequence_finding, type_finding,
  count_record,
}
use dev_cadence.Journal.Resync.{Resync, found, lost, resync}
use dev_cadence.Journal.Segment.{after_resync, after_frame, scan_round, next_round, scan_loop}
use dev_cadence.Journal.Rules.{Ends, val, stop}
use dev_cadence.Journal.Bounds.{frame_at-Ends}
use dev_cadence.Journal.Search.{resync-Ends}
use mathlib.Core.List.{append_assoc, append-nil}

pub record Grown (s t : SegScan) : Type 0 where
  pub more : List Scanned
  pub grows : t.visited ≡ s.visited ++ more

same-Grown : (s t : SegScan) → t.visited ≡ s.visited → Grown s t
same-Grown s t e = record { more = []; grows = e ∙ sym (append-nil s.visited) }

trans-Grown : {s t u : SegScan} → Grown s t → Grown t u → Grown s u
trans-Grown {s} g h = record {
  more = g.more ++ h.more;
  grows = h.grows ∙ ap (λ v. v ++ h.more) g.grows ∙ append_assoc s.visited g.more h.more;
}

-- The state at the end, whether with a result or not.
Ends-leaves :
    {A : Type 0} {E : SegScan → Type 0} {Q : A → SegScan → Type 0} (P : SegScan → Type 0)
    {r : Answer A × SegScan}
    → Ends E Q r
    → ((t : SegScan) → E t → P t)
    → ((a : A) (t : SegScan) → Q a t → P t)
    → P r.1
Ends-leaves P (val {a} {s} q) e f = f a s q
Ends-leaves P (stop {s = s} ne h) e f = e s h

continue-Grown :
    {A B : Type 0} (s : SegScan) (r : Answer A × SegScan) (f : A → Run B)
    → Grown s r.1
    → ((a : A) (t : SegScan) → Grown t (f a t).1)
    → Grown s (continue f r).1
unfolding continue
continue-Grown s (Answer.val a, t) f g h = trans-Grown g (h a t)
continue-Grown s (Answer.stop x, t) f g h = g

sequence_visited :
    (src : Source) (rec : JournalRecord) (o : ℕ) (s : SegScan)
    → (sequence_finding src rec o s).visited ≡ s.visited
unfolding add
sequence_visited src rec o s = ground arith

type_visited :
    (src : Source) (rec : JournalRecord) (o : ℕ) (s : SegScan)
    → (type_finding src rec o s).visited ≡ s.visited
unfolding add
type_visited src rec o s = ground arith

deliver-Grown :
    (src : Source) (rec : JournalRecord) (o : ℕ) (s : SegScan) → Grown s (deliver src rec o s).1
unfolding deliver
deliver-Grown src rec o s = called (src.visit scanned)
  where
    scanned : Scanned
    scanned = record { rec = rec; segment = src.idx; offset = o }

    before : SegScan
    before = type_finding src rec o (sequence_finding src rec o s)

    after : SegScan
    after = record (count_record before) { visited = before.visited ++ scanned ∷ [] }

    done : Grown s after
    done = record {
      more = scanned ∷ [];
      grows =
          ap (λ v. v ++ scanned ∷ [])
            (type_visited src rec o (sequence_finding src rec o s) ∙ sequence_visited src rec o s);
    }

    called : (accepted : Bool) → Grown s (visit_result accepted after).1
    called true = done
    called false = done

searched-Grown :
    (src : Source) (o : ℕ) (code : FindingCode) (torn : Bool) (r : Resync) (s : SegScan)
    → Grown s (after_resync src o code torn r s).1
unfolding continue add
searched-Grown src o code torn (found p) s = same-Grown s _ refl
searched-Grown src o code torn (lost true) s = same-Grown s _ refl
searched-Grown src o code torn (lost false) s = same-Grown s _ refl

frame-Grown :
    (src : Source) (o : ℕ) (f : FrameAt) (s : SegScan)
    → o < src.size
    → Grown s (after_frame src o f s).1
frame-Grown src o (valid rec n) s fits =
    continue-Grown s (deliver src rec o s) _ (deliver-Grown src rec o s)
      (λ u t. same-Grown t t refl)
frame-Grown src o (bad code torn) s fits =
    continue-Grown s (resync src o s) _
      (Ends-leaves (Grown s) (resync-Ends src o s fits) (λ t q. same-Grown s t q.same_visited)
        (λ r t (q, at). same-Grown s t q.same_visited))
      (λ r t. searched-Grown src o code torn r t)

round-Grown : (src : Source) (o : ℕ) (s : SegScan) → o < src.size → Grown s (scan_round src o s).1
unfolding scan_round
round-Grown src o s fits =
    continue-Grown s (frame_at src o false s) _
      (Ends-leaves (Grown s) (frame_at-Ends src o false s) (λ t q. same-Grown s t q.same_visited)
        (λ f t framed. same-Grown s t framed.quiet.same_visited))
      (λ f t. frame-Grown src o f t fits)

pub scan_loop-Grown : (src : Source) (fuel o : ℕ) (s : SegScan) → Grown s (scan_loop src fuel o s).1
unfolding scan_loop
scan_loop-Grown src zero o s = elim (Bool-cases (ltb o src.size)) [
  | inl e ↦ rw e (same-Grown s s refl)
  | inr e ↦ rw e (same-Grown s _ refl)
]
scan_loop-Grown src (suc fuel) o s = elim (Bool-cases (ltb o src.size)) [
  | inr e ↦ rw e (same-Grown s _ refl)
  | inl e ↦ rw e (
      continue-Grown s (scan_round src o s) _ (round-Grown src o s (ground arith))
        (λ x t. next x t (λ n. scan_loop-Grown src fuel n t)))
]
  where
    next :
        (x : Option ℕ) (t : SegScan)
        → ((n : ℕ) → Grown t (scan_loop src fuel n t).1)
        → Grown t (next_round (λ n. scan_loop src fuel n) x t).1
    next none t g = same-Grown t t refl
    next (some n) t g = g n

-- ===== src/Journal/Prefix.antt =====
-- internal/flightrec/journal/scan.go: the loop of `ScanSegment` over records that were framed in order,
-- and what is left of them whatever comes behind.
use mathlib.Core.List.{append_assoc, append-nil}
use dev_cadence.Prelude.{
  ℕ, zero, suc, ◌+◌, ◌<◌, ◌≡◌, refl, sym, ap, ◌∙◌, subst, true, map, List, [], ◌∷◌, ◌++◌, length,
  length-append, ltb, arith,
}
use dev_cadence.Bytes.{Bytes}
use dev_cadence.Wire.Proto.{Laws}
use dev_cadence.Wire.Messages.JournalRecord.{JournalRecord}
use dev_cadence.Journal.Frame.{frame_overhead, encode_frame, put_u32}
use dev_cadence.Journal.Findings.{Scanned}
use dev_cadence.Journal.Machine.{Source, SegScan, continue}
use dev_cadence.Journal.Segment.{after_frame, scan_round, next_round, finish}
use dev_cadence.Journal.Segment
use dev_cadence.Journal.Intact.{Reads}
use dev_cadence.Journal.Delivered.{
  payload, frames, Stored, scanned, behind_one, behind, round_expected,
}

pub length-encode_frame : (p : Bytes) → length (encode_frame p) ≡ frame_overhead + length p
unfolding encode_frame put_u32
length-encode_frame p = omega arith

-- The rounds over the records `recs`, one for each.
pub loop_expected :
    (src : Source) (recs : List JournalRecord) (k fuel : ℕ) (pre tail : Bytes) (n : ℕ) (s : SegScan)
    → Laws src.protowire
    → Reads src (pre ++ (frames src recs ++ tail))
    → src.max_rec < 0x1_0000_0000
    → ((v : Scanned) → src.visit v ≡ true)
    → s.c_buf ≡ []
    → s.last + 1 ≡ n
    → Stored src n recs
    → k + length recs ≡ fuel
    → Segment.scan_loop src fuel (length pre) s
      ≡ Segment.scan_loop src k
          (length pre + length (frames src recs))
          (behind src (length pre) recs s)
unfolding Segment.scan_loop continue
loop_expected src [] k fuel pre tail n s l r word accepts none_cached last v e =
    let same : k ≡ fuel = omega arith in
    let here : length pre + 0 ≡ length pre = omega arith in rw here (rw same refl)
loop_expected src (rec ∷ recs) k zero pre tail n s l r word accepts none_cached last (v, vs) e =
    absurd (omega arith)
loop_expected src (rec ∷ recs) k (suc fuel) pre tail n s l r word accepts none_cached last (v, vs)
      e =
    let p = payload src rec in
    let split : pre ++ ((encode_frame p ++ frames src recs) ++ tail)
        ≡ pre ++ (encode_frame p ++ (frames src recs ++ tail)) =
      ap (λ x. pre ++ x) (append_assoc (encode_frame p) (frames src recs) tail) in
    let reads = subst (Reads src) split r in
    let next : length (pre ++ encode_frame p) ≡ length pre + (frame_overhead + length p) =
      omega (arith, length-append pre (encode_frame p), length-encode_frame p) in
    let reads' =
      subst (Reads src) (sym (append_assoc pre (encode_frame p) (frames src recs ++ tail))) reads in
    let inside : ltb (length pre) src.size ≡ true = ground (
      arith,
      reads.sized,
      length-append pre (encode_frame p ++ (frames src recs ++ tail)),
      length-append (encode_frame p) (frames src recs ++ tail),
      length-encode_frame p,
    ) in
    let round =
      round_expected src pre (frames src recs ++ tail) n rec s l reads word accepts none_cached last
        v in
    let rest =
      loop_expected src recs k fuel (pre ++ encode_frame p) tail (n + 1)
        (behind_one src (length pre) rec s) l reads' word accepts none_cached
        (omega (arith, v.numbered)) vs (omega arith) in
    let total : length pre + (frame_overhead + length p) + length (frames src recs)
        ≡ length pre + length (encode_frame p ++ frames src recs) =
      omega (arith, length-append (encode_frame p) (frames src recs), length-encode_frame p) in
    let there =
      behind src (length pre + (frame_overhead + length p)) recs
        (behind_one src (length pre) rec s) in
    rw inside (rw round ((rw next at rest) ∙ ap (λ o. Segment.scan_loop src k o there) total))

-- What the records leave in the state.
pub record Followed (recs : List JournalRecord) (s t : SegScan) : Type 0 where
  pub visited_recs : map (λ v. v.rec) t.visited ≡ map (λ v. v.rec) s.visited ++ recs
  pub counted : t.rep.records ≡ s.rep.records + length recs
  pub same_findings : t.rep.findings ≡ s.rep.findings
  pub same_header : t.rep.header_ok ≡ s.rep.header_ok
  pub last_number : (n : ℕ) → s.last + 1 ≡ n → t.last + 1 ≡ n + length recs

pub map-append :
    (xs ys : List Scanned)
    → map (λ v. v.rec) (xs ++ ys) ≡ map (λ v. v.rec) xs ++ map (λ v. v.rec) ys
map-append [] ys = refl
map-append (x ∷ xs) ys = ap (λ t. x.rec ∷ t) (map-append xs ys)

pub behind-Followed :
    (src : Source) (n o : ℕ) (recs : List JournalRecord) (s : SegScan)
    → Stored src n recs
    → s.last + 1 ≡ n
    → Followed recs s (behind src o recs s)
behind-Followed src n o [] s h last = record {
  visited_recs = sym (append-nil _);
  counted = omega arith;
  same_findings = refl;
  same_header = refl;
  last_number = λ m e. omega arith;
}
behind-Followed src n o (rec ∷ recs) s (v, vs) last =
    let t = behind_one src o rec s in
    let rest =
      behind-Followed src (n + 1) (o + (frame_overhead + length (payload src rec))) recs t vs
        (omega (arith, v.numbered)) in
    record {
      visited_recs =
          rest.visited_recs
          ∙ ap (λ x. x ++ recs) (map-append s.visited (scanned src o rec ∷ []))
          ∙ append_assoc (map (λ v. v.rec) s.visited) (rec ∷ []) recs;
      counted = omega (arith, rest.counted);
      same_findings = rest.same_findings;
      same_header = rest.same_header;
      last_number = λ m e. omega (arith, rest.last_number (n + 1) (omega (arith, v.numbered)));
    }

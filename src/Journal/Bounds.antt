-- ===== src/Journal/Bounds.antt =====
-- internal/flightrec/journal/scan.go: where the methods of the scanner read and search.
use dev_cadence.Prelude.{
  ℕ, ◌+◌, ◌-◌, ◌*◌, ◌≤◌, ◌≡◌, refl, sym, ap, ◌∙◌, length, Bool, true, false, [], ◌∷◌, inl, inr, ltb,
  ◌||◌, if◌then◌else◌, Bool-cases, arith,
}
use dev_cadence.Bytes.{Bytes, ◌==◌, equal, equal-eq, take, drop}
use dev_cadence.Wire.Decoder.{Decoded}
use dev_cadence.Wire.Messages.JournalRecord
use dev_cadence.Wire.Messages.JournalRecord.{JournalRecord}
use dev_cadence.Journal.Crc.{checksum}
use dev_cadence.Journal.Frame.{get_u32, frame_sync, frame_overhead}
use dev_cadence.Journal.Findings.{FindingCode}
use dev_cadence.Journal.Machine.{Source, SegScan, continue}
use dev_cadence.Journal.Scanner.{
  FrameAt, valid, bad, frame_at, frame_probe, frame_payload, frame_head, schema_version_tag,
  resync_budget_factor, decoded_frame,
}
use dev_cadence.Journal.Reading.{read_whole-Ends, read-Ends}
use dev_cadence.Journal.Report.{FrameOf}
use dev_cadence.Journal.Rules.{
  ReadFrom, Cached, Ends, val, bind_rule, Quiet, refl-Quiet, trans-Quiet,
}

-- What `frameAt` may say at `off`: a record with its frame, which is as long as it says and ends inside
-- the segment.
pub record Framed (src : Source) (off : ℕ) (f : FrameAt) (s t : SegScan) : Type 0 where
  pub quiet : Quiet src s t
  pub inside :
      Cached src s
      → (rec : JournalRecord) (n : ℕ) → f ≡ valid rec n
      → (frame : FrameOf src off rec) × (n ≡ frame_overhead + length frame.payload)
        × (off + n ≤ src.size)

bad-Framed :
    {src : Source} {off : ℕ} {s t : SegScan} {code : FindingCode} {torn : Bool}
    → Quiet src s t
    → Framed src off (bad code torn) s t
bad-Framed q = record { quiet = q; inside = λ c rec n e. cc }

-- The head of a frame passes the tests before its payload is read.
record Headed (src : Source) (off : ℕ) (head : Bytes) (s : SegScan) : Type 0 where
  head_whole : length head ≡ frame_overhead
  head_read : Cached src s → ReadFrom src off head
  synced : take 4 head ≡ frame_sync
  filled : 1 ≤ get_u32 (drop 4 head)
  small : get_u32 (drop 4 head) ≤ src.max_rec
  fits : off + frame_overhead + get_u32 (drop 4 head) ≤ src.size

valid-injective :
    {rec rec' : JournalRecord} {n k : ℕ} → valid rec n ≡ valid rec' k → (rec ≡ rec') × (n ≡ k)
valid-injective e = (cc, cc)

decoded-Framed :
    (src : Source) (off : ℕ) (head payload : Bytes) (d : Decoded JournalRecord) (s t : SegScan)
    → Quiet src s t
    → Headed src off head s
    → length payload ≡ get_u32 (drop 4 head)
    → (Cached src s → ReadFrom src (off + frame_overhead) payload)
    → checksum (take 4 (drop 4 head) ∷ payload ∷ []) ≡ get_u32 (drop 8 head)
    → JournalRecord.unmarshal src.protowire payload ≡ d
    → Framed src off (decoded_frame (frame_overhead + get_u32 (drop 4 head)) d) s t
decoded-Framed src off head payload (Decoded.fail x) s t q h whole from summed decodes =
    bad-Framed q
decoded-Framed src off head payload (Decoded.ok rec) s t q h whole from summed decodes =
    elim (Bool-cases (JournalRecord.validate rec)) [
      | inr e ↦ rw e (bad-Framed q)
      | inl e ↦ rw e (record { quiet = q; inside = λ c rec' n e'. at c (valid-injective e') e })
    ]
  where
    at :
        Cached src s
        → {rec' : JournalRecord} {n : ℕ}
        → (rec ≡ rec') × (frame_overhead + get_u32 (drop 4 head) ≡ n)
        → JournalRecord.validate rec ≡ true
        → (frame : FrameOf src off rec') × (n ≡ frame_overhead + length frame.payload)
          × (off + n ≤ src.size)
    at c (same, size) good = (
      record {
        head = head;
        payload = payload;
        head_read = h.head_read c;
        head_whole = h.head_whole;
        payload_read = from c;
        synced = h.synced;
        sized = sym whole;
        filled = omega (arith, h.filled);
        small = omega (arith, h.small);
        summed = summed;
        decodes = decodes ∙ ap Decoded.ok same;
        validates = ap JournalRecord.validate (sym same) ∙ good;
      },
      omega arith,
      omega (arith, h.fits),
    )

payload-Ends :
    (src : Source) (off : ℕ) (head : Bytes) (s t : SegScan)
    → Quiet src s t
    → Headed src off head s
    → Ends
        (Quiet src s)
        (λ f u. Framed src off f s u)
        (frame_payload src off head (get_u32 (drop 4 head)) t)
payload-Ends src off head s t q h =
    bind_rule (read_whole-Ends src (off + frame_overhead) (get_u32 (drop 4 head)) t)
      (λ u w. trans-Quiet q w)
      (λ payload u (quiet, (whole, from)).
        let q' = trans-Quiet q quiet in
        elim (Bool-cases
          (checksum (take 4 (drop 4 head) ∷ payload ∷ []) == get_u32 (drop 8 head))) [
            | inl e ↦ rw e (
                val (
                  decoded-Framed src off head payload _ s u q' h whole
                    (λ c. from (q.true_cache c) h.filled) (ground (arith, e)) refl))
            | inr e ↦ rw e (val (bad-Framed q'))
          ])

probe-Ends :
    (src : Source) (off : ℕ) (head : Bytes) (s t : SegScan)
    → Quiet src s t
    → Headed src off head s
    → Ends
        (Quiet src s)
        (λ f u. Framed src off f s u)
        (frame_probe src off head (get_u32 (drop 4 head)) t)
unfolding continue
probe-Ends src off head s t q headed =
    let len = get_u32 (drop 4 head) in
    bind_rule (read-Ends src (off + frame_overhead) 1 t) (λ u w. trans-Quiet q w)
      (λ first u quiet.
        let q' = trans-Quiet q quiet in
        elim (Bool-cases (equal first (schema_version_tag ∷ []))) [
          | inr h ↦ rw h (val (bad-Framed q'))
          | inl h ↦
              rw h
                (elim (Bool-cases (ltb (resync_budget_factor * src.max_resync) (u.spent + len))) [
                  | inl b ↦ rw b (
                      val (
                        bad-Framed (record {
                          same_hdr = q'.same_hdr;
                          same_last = q'.same_last;
                          same_rep = q'.same_rep;
                          same_visited = q'.same_visited;
                          true_cache = q'.true_cache;
                        })))
                  | inr b ↦ rw b (
                      payload-Ends src off head s _
                        (record {
                          same_hdr = q'.same_hdr;
                          same_last = q'.same_last;
                          same_rep = q'.same_rep;
                          same_visited = q'.same_visited;
                          true_cache = q'.true_cache;
                        })
                        headed)
                ])
        ])

head-Ends :
    (src : Source) (off : ℕ) (probe : Bool) (head : Bytes) (s t : SegScan)
    → Quiet src s t
    → length head ≡ frame_overhead
    → (Cached src s → ReadFrom src off head)
    → Ends (Quiet src s) (λ f u. Framed src off f s u) (frame_head src off probe head t)
head-Ends src off probe head s t q whole from =
    let len = get_u32 (drop 4 head) in
    elim (Bool-cases (equal (take 4 head) frame_sync)) [
      | inr a ↦ rw a (val (bad-Framed q))
      | inl a ↦ rw a (elim (Bool-cases (len == 0 || ltb src.max_rec len)) [
        | inl b ↦ rw b (val (bad-Framed q))
        | inr b ↦ rw b (elim (Bool-cases (ltb src.size (off + frame_overhead + len))) [
          | inl c ↦ rw c (val (bad-Framed q))
          | inr c ↦ rw c (
              body
                (record {
                  head_whole = whole;
                  head_read = from;
                  synced = equal-eq (take 4 head) frame_sync a;
                  filled = ground (arith, b);
                  small = ground (arith, b);
                  fits = ground (arith, c);
                })
                probe)
        ])
      ])
    ]
  where
    body :
        Headed src off head s
        → (probe : Bool)
        → Ends
            (Quiet src s)
            (λ f u. Framed src off f s u)
            ((if probe
                then frame_probe src off head (get_u32 (drop 4 head))
                else frame_payload src off head (get_u32 (drop 4 head)))
              t)
    body h true = probe-Ends src off head s t q h
    body h false = payload-Ends src off head s t q h

pub frame_at-Ends :
    (src : Source) (off : ℕ) (probe : Bool) (s : SegScan)
    → Ends (Quiet src s) (λ f t. Framed src off f s t) (frame_at src off probe s)
unfolding frame_at
frame_at-Ends src off probe s = elim (Bool-cases (ltb (src.size - off) frame_overhead)) [
  | inl h ↦ rw h (val (bad-Framed (refl-Quiet s)))
  | inr h ↦ rw h (
      bind_rule (read_whole-Ends src off frame_overhead s) (λ t w. w)
        (λ head t (q, (whole, from)).
          head-Ends src off probe head s t q whole (λ c. from c (omega arith))))
]

-- ===== src/Journal/Delivered.antt =====
-- internal/flightrec/journal/scan.go: `ScanSegment` on a segment of records that were framed in order.
use dev_cadence.Prelude.{
  ℕ, ◌+◌, ◌%◌, ◌≤◌, ◌<◌, ◌≡◌, refl, sym, ap, ◌∙◌, true, false, some, List, [], ◌∷◌, ◌++◌, length,
  arith,
}
use dev_cadence.Bytes.{Bytes, ◌==◌}
use dev_cadence.Wire.Proto.{Laws}
use dev_cadence.Wire.Decoder.{Decoded, scan, scan_loop}
use dev_cadence.Wire.Messages.JournalRecord
use dev_cadence.Wire.Messages.JournalRecord.{JournalRecord}
use dev_cadence.Wire.RoundTrip.JournalRecord.{IsEncodable, unmarshal-marshal}
use dev_cadence.Journal.Frame.{frame_overhead, encode_frame}
use dev_cadence.Journal.Findings.{Scanned}
use dev_cadence.Journal.Machine.{Source, SegScan, Answer, continue}
use dev_cadence.Journal.Scanner.{deliver}
use dev_cadence.Journal.Segment.{scan_round}
use dev_cadence.Journal.Intact.{Reads, none-ChunkOf, frame_at-encode_frame}

module _ (src : Source) where
  abbrev pub payload : JournalRecord → Bytes
  payload rec = (JournalRecord.marshal src.protowire rec).0

  -- The frames of the records, one behind the other.
  abbrev pub frames : List JournalRecord → Bytes
  frames [] = []
  frames (rec ∷ recs) = encode_frame (payload rec) ++ frames recs

  -- A record that a writer may have stored at the sequence number `n`.
  pub record IsStored (n : ℕ) (rec : JournalRecord) : Type 0 where
    pub encodable : IsEncodable src.protowire rec
    pub validates : JournalRecord.validate rec ≡ true
    pub known : (JournalRecord.body_type rec == JournalRecord.unspecified) ≡ false
    pub fits : length (payload rec) ≤ src.max_rec
    pub numbered : rec.stream_sequence ≡ n

  abbrev pub Stored : ℕ → List JournalRecord → Type 0
  Stored n [] = Unit
  Stored n (rec ∷ recs) = IsStored n rec × Stored (n + 1) recs

  abbrev pub scanned : ℕ → JournalRecord → Scanned
  scanned o rec = record { rec = rec; segment = src.idx; offset = o }

  -- The state behind a record that is as expected, and behind some.
  abbrev pub behind_one : ℕ → JournalRecord → SegScan → SegScan
  behind_one o rec s = record s {
    last = rec.stream_sequence;
    rep = record s.rep { records = s.rep.records + 1; last_sequence = rec.stream_sequence };
    visited = s.visited ++ scanned o rec ∷ [];
  }

  abbrev pub behind : ℕ → List JournalRecord → SegScan → SegScan
  behind o [] s = s
  behind o (rec ∷ recs) s =
      behind (o + (frame_overhead + length (payload rec))) recs (behind_one o rec s)

deliver_expected :
    (src : Source) (rec : JournalRecord) (o : ℕ) (s : SegScan)
    → (JournalRecord.body_type rec == JournalRecord.unspecified) ≡ false
    → rec.stream_sequence ≡ s.last + 1
    → rec.stream_sequence < 0x1_0000_0000_0000_0000
    → src.visit (scanned src o rec) ≡ true
    → deliver src rec o s ≡ (Answer.val tt, behind_one src o rec s)
unfolding deliver
deliver_expected src rec o s known next small accepted =
    let expected : (rec.stream_sequence == (s.last + 1) % 0x1_0000_0000_0000_0000) ≡ true =
      ground arith in
    rw expected (rw known (rw accepted refl))

payload_decodes :
    (src : Source) (rec : JournalRecord)
    → Laws src.protowire
    → IsEncodable src.protowire rec
    → JournalRecord.unmarshal src.protowire (payload src rec) ≡ Decoded.ok rec
payload_decodes src rec l v = (unmarshal-marshal src.protowire l rec v).1

-- No bytes decode to the empty record, which does not validate.
pub payload_ne_nil :
    (src : Source) (rec : JournalRecord)
    → Laws src.protowire
    → IsEncodable src.protowire rec
    → JournalRecord.validate rec ≡ true
    → 1 ≤ length (payload src rec)
unfolding JournalRecord.unmarshal JournalRecord.unmarshal_at scan scan_loop JournalRecord.validate
payload_ne_nil src rec l v good = go (payload src rec) (payload_decodes src rec l v)
  where
    go : (b : Bytes) → JournalRecord.unmarshal src.protowire b ≡ Decoded.ok rec → 1 ≤ length b
    go [] e =
        let same : JournalRecord.empty ≡ rec = cc in
        let bare : JournalRecord.validate JournalRecord.empty ≡ false = refl in
        cc (ap (λ r. JournalRecord.validate r) same, bare)
    go (x ∷ xs) e = omega arith

pub round_expected :
    (src : Source) (pre post : Bytes) (n : ℕ) (rec : JournalRecord) (s : SegScan)
    → Laws src.protowire
    → Reads src (pre ++ (encode_frame (payload src rec) ++ post))
    → src.max_rec < 0x1_0000_0000
    → ((v : Scanned) → src.visit v ≡ true)
    → s.c_buf ≡ []
    → s.last + 1 ≡ n
    → IsStored src n rec
    → scan_round src (length pre) s ≡ (
      Answer.val (some (length pre + (frame_overhead + length (payload src rec)))),
      behind_one src (length pre) rec s,
    )
unfolding scan_round continue
round_expected src pre post n rec s l r word accepts none_cached last v =
    let found =
      frame_at-encode_frame src pre (payload src rec) post rec s r (none-ChunkOf _ s none_cached)
        (payload_ne_nil src rec l v.encodable v.validates) v.fits word
        (payload_decodes src rec l v.encodable) v.validates in
    let delivered =
      deliver_expected src rec (length pre) s v.known (v.numbered ∙ sym last)
        v.encodable.stream_sequence_fits (accepts (scanned src (length pre) rec)) in
    rw found (rw delivered refl)

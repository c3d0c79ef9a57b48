-- ===== src/Journal/Report.antt =====
-- internal/flightrec/journal/scan.go: the report of `ScanSegment`, and the end of its loops.
use dev_cadence.Prelude.{
  ℕ, ◌+◌, ◌≤◌, ◌≡◌, ◌⊎◌, sym, ap, ◌∙◌, subst, String, true, List, [], ◌∷◌, ◌++◌, length, All, arith,
}
use dev_cadence.Wire.Messages.JournalRecord
use dev_cadence.Wire.Messages.JournalRecord.{JournalRecord}
use dev_cadence.Bytes.{Bytes, take, drop}
use dev_cadence.Wire.Decoder.{Decoded}
use dev_cadence.Journal.Crc.{checksum}
use dev_cadence.Journal.Frame.{frame_overhead, frame_sync, get_u32}
use dev_cadence.Journal.Findings.{FindingCode, resync_abandoned, Finding, Scanned}
use dev_cadence.Journal.Machine.{Source, SegScan, add}
use dev_cadence.Journal.Rules.{ReadFrom, Cached, Quiet}

-- A finding points into the segment, and what it says was skipped ends there too, unless the search
-- was abandoned.
abbrev pub Placed : ℕ → Finding → Type 0
Placed size f =
    (f.offset ≤ size) × ((f.code ≡ resync_abandoned) ⊎ (f.offset + f.skipped_bytes ≤ size))

-- The frame of a record: the twelve bytes of its head at the offset and its payload behind them, as the
-- reader gives them. The head starts with the sync
-- word, holds the length of the payload, which is within the limit, and the right checksum; the payload
-- decodes to the record, and the record validates.
pub record FrameOf (src : Source) (off : ℕ) (rec : JournalRecord) : Type 0 where
  pub head : Bytes
  pub payload : Bytes
  pub head_read : ReadFrom src off head
  pub head_whole : length head ≡ frame_overhead
  pub payload_read : ReadFrom src (off + frame_overhead) payload
  pub synced : take 4 head ≡ frame_sync
  pub sized : get_u32 (drop 4 head) ≡ length payload
  pub filled : 1 ≤ length payload
  pub small : length payload ≤ src.max_rec
  pub summed : checksum (take 4 (drop 4 head) ∷ payload ∷ []) ≡ get_u32 (drop 8 head)
  pub decodes : JournalRecord.unmarshal src.protowire payload ≡ Decoded.ok rec
  pub validates : JournalRecord.validate rec ≡ true

-- The records stand one behind the other between the offsets `lo` and `hi`, each with its whole frame
-- before the next one starts.
abbrev pub Laid : Source → ℕ → ℕ → List Scanned → Type 0
Laid src lo hi [] = lo ≤ hi
Laid src lo hi (v ∷ vs) =
    (lo ≤ v.offset)
    × (f : FrameOf src v.offset v.rec) × Laid src (v.offset + (frame_overhead + length f.payload))
        hi vs

-- The state of a scan that has come to the offset `o`.
pub record Sound (src : Source) (o : ℕ) (s : SegScan) : Type 0 where
  pub placed : All (Placed src.size) s.rep.findings
  pub counted : s.rep.records ≡ length s.visited
  pub laid : Laid src 0 o s.visited
  pub cached : Cached src s

pub All-append {ℓ κ} :
    {A : Type ℓ} (P : A → Type κ) (xs : List A) {x : A} → All P xs → P x → All P (xs ++ x ∷ [])
All-append P [] h p = (p, tt)
All-append P (y ∷ ys) (h, hs) p = (h, All-append P ys hs p)

pub Laid-mono :
    (src : Source) (lo hi k : ℕ) (vs : List Scanned) → hi ≤ k → Laid src lo hi vs → Laid src lo k vs
Laid-mono src lo hi k [] le h = omega arith
Laid-mono src lo hi k (v ∷ vs) le (low, f, rest) =
    (low, f, Laid-mono src (v.offset + (frame_overhead + length f.payload)) hi k vs le rest)

pub Laid-append :
    (src : Source) (lo k : ℕ) (vs : List Scanned) (v : Scanned)
    → Laid src lo v.offset vs
    → (f : FrameOf src v.offset v.rec) → v.offset + (frame_overhead + length f.payload) ≤ k
    → Laid src lo k (vs ++ v ∷ [])
Laid-append src lo k [] v h f fits = (h, f, fits)
Laid-append src lo k (w ∷ ws) v (low, g, rest) f fits =
    (low, g, Laid-append src (w.offset + (frame_overhead + length g.payload)) k ws v rest f fits)

pub Sound-mono : {src : Source} {o k : ℕ} {s : SegScan} → o ≤ k → Sound src o s → Sound src k s
Sound-mono {src} {o} {k} {s} le h = record {
  placed = h.placed;
  counted = h.counted;
  laid = Laid-mono src 0 o k s.visited le h.laid;
  cached = h.cached;
}

pub Quiet-Sound :
    {src : Source} {o : ℕ} {s t : SegScan} → Quiet src s t → Sound src o s → Sound src o t
Quiet-Sound {src} {o} q h = record {
  placed = subst (λ r. All (Placed src.size) r.findings) (sym q.same_rep) h.placed;
  counted = ap (λ r. r.records) q.same_rep ∙ h.counted ∙ ap (λ v. length v) (sym q.same_visited);
  laid = subst (Laid src 0 o) (sym q.same_visited) h.laid;
  cached = q.true_cache h.cached;
}

pub add-Sound :
    {o : ℕ} (src : Source) (code : FindingCode) (off skipped expected got : ℕ) (detail : String)
    (s : SegScan)
    → (off ≤ src.size) × ((code ≡ resync_abandoned) ⊎ (off + skipped ≤ src.size))
    → Sound src o s
    → Sound src o (add src code off skipped expected got detail s)
unfolding add
add-Sound src code off skipped expected got detail s place h = record {
  placed = All-append (Placed src.size) s.rep.findings h.placed place;
  counted = h.counted;
  laid = h.laid;
  cached = h.cached;
}

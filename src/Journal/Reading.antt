-- ===== src/Journal/Reading.antt =====
-- internal/flightrec/journal/scan.go: `readAt`, and where the bytes that it gives come from.
use dev_cadence.Prelude.{
  ℕ, ◌+◌, ◌-◌, ◌≤◌, ◌≡◌, sym, ap, length, some, inl, inr, leb, ◌&&◌, Bool-cases, arith,
}
use dev_cadence.Bytes.{Bytes, take, drop, length-take, length-drop, take_all}
use dev_cadence.Journal.Frame.{frame_overhead}
use dev_cadence.Journal.Machine.{Source, SegScan, read, in_cache}
use dev_cadence.Journal.Rules.{
  ReadFrom, Cached, Ends, val, answer-Ends, Ends-mono, Quiet, refl-Quiet,
}

-- A read changes nothing, and gives as many bytes as are asked for, which the reader has given there.
abbrev pub Piece : Source → ℕ → ℕ → SegScan → Bytes → Type 0
Piece src off n s b = (length b ≡ n) × (Cached src s → 1 ≤ n → ReadFrom src off b)

cached-Piece :
    (src : Source) (off n : ℕ) (s : SegScan)
    → s.c_off ≤ off
    → off + n ≤ s.c_off + length s.c_buf
    → Piece src off n s (take n (drop (off - s.c_off) s.c_buf))
cached-Piece src off n s lo hi = (whole, from)
  where
    whole : length (take n (drop (off - s.c_off) s.c_buf)) ≡ n
    whole =
        length-take n (drop (off - s.c_off) s.c_buf)
          (omega (arith, length-drop (off - s.c_off) s.c_buf))

    from : Cached src s → 1 ≤ n → ReadFrom src off (take n (drop (off - s.c_off) s.c_buf))
    from (inl e) pos = absurd (omega (arith, ap length e))
    from (inr (k, e)) pos = record {
      start = s.c_off;
      asked = k;
      chunk = s.c_buf;
      answered = e;
      behind = lo;
      inside = omega (arith, whole);
      piece = ap (λ c. take c (drop (off - s.c_off) s.c_buf)) (sym whole);
    }

answered-Piece :
    (src : Source) (off n : ℕ) (s : SegScan) (b : Bytes)
    → src.read_at off n ≡ some b
    → length b ≡ n
    → Piece src off n s b
unfolding drop
answered-Piece src off n s b e whole =
    let itself : off - off ≡ 0 = omega arith in
    (
      whole,
      λ c pos. record {
        start = off;
        asked = n;
        chunk = b;
        answered = e;
        behind = omega arith;
        inside = omega arith;
        piece = rw itself (sym (take_all b));
      },
    )

pub read_whole-Ends :
    (src : Source) (off n : ℕ) (s : SegScan)
    → Ends (Quiet src s) (λ b t. Quiet src s t × Piece src off n s b) (read src off n s)
unfolding read
read_whole-Ends src off n s = elim (Bool-cases (leb n (frame_overhead + 1) && in_cache s off n)) [
  | inl h ↦ rw h (val (refl-Quiet s, cached-Piece src off n s (ground arith) (ground arith)))
  | inr h ↦ rw h (
      answer-Ends n (src.read_at off n) s (refl-Quiet s)
        (λ b e whole. (refl-Quiet s, answered-Piece src off n s b e whole)))
]

pub read-Ends :
    (src : Source) (off n : ℕ) (s : SegScan)
    → Ends (Quiet src s) (λ b t. Quiet src s t) (read src off n s)
read-Ends src off n s = Ends-mono (read_whole-Ends src off n s) (λ t q. q) (λ b t q. q.0)

-- ===== src/Journal/Search.antt =====
-- internal/flightrec/journal/scan.go: where the search for the next valid frame looks.
use dev_cadence.Prelude.{
  ℕ, zero, suc, ◌+◌, ◌-◌, ◌≤◌, ◌<◌, ◌≡◌, refl, ap, Bool, true, false, Option, none, some, [], ◌∷◌,
  inl, inr, length, ltb, leb, ◌||◌, Bool-cases, Option-cases, arith,
}
use Prim.Native.Nat.{min}
use dev_cadence.Bytes.{Bytes, ◌==◌, equal, equal-eq, take, drop, length-take_le, length-take_cap}
use dev_cadence.Journal.Frame.{frame_sync}
use dev_cadence.Journal.Machine.{Source, SegScan, Answer, Run, continue, answer_of}
use dev_cadence.Journal.Resync.{
  Resync, found, lost, index_sync, fill, cache_chunk, chunk_end, find_result, find_step, find_loop,
  find_sync, candidate, judge, try_at, resync_loop, resync, scan_chunk,
}
use dev_cadence.Journal.Bounds.{frame_at-Ends}
use dev_cadence.Journal.Rules.{
  Ends, val, stop, bind_rule, Ends-mono, Quiet, refl-Quiet, trans-Quiet,
}

-- What the search has found lies behind where it began, not past `to`, and with room for the marker.
abbrev At : ℕ → ℕ → Option ℕ → Type 0
At from hi none = Unit
At from hi (some p) = (from ≤ p) × (p + 4 ≤ hi)

index_sync_room : (b : Bytes) (i : ℕ) → index_sync b ≡ some i → i + 4 ≤ length b
unfolding index_sync
index_sync_room [] i h = cc
index_sync_room (x ∷ xs) i h = elim (Bool-cases (equal (take 4 (x ∷ xs)) frame_sync)) [
  | inl e ↦
      let marker = equal-eq (take 4 (x ∷ xs)) frame_sync e in
      ground (arith, ap length marker, length-take_le 4 (x ∷ xs))
  | inr e ↦ elim (Option-cases (index_sync xs)) [
    | inl n ↦ ground arith
    | inr (j, n) ↦ ground (arith, index_sync_room xs j n)
  ]
]

-- After `fill` the first four bytes at `from` stand in the cache.
abbrev Filled : Source → ℕ → SegScan → SegScan → Type 0
Filled src from s t = Quiet src s t × (t.c_off ≤ from) × (from + 4 ≤ t.c_off + length t.c_buf)

fill-Ends :
    (src : Source) (from hi : ℕ) (s : SegScan)
    → from + 4 ≤ hi
    → Ends (Quiet src s) (λ u t. Filled src from s t) (fill src from hi s)
unfolding fill
fill-Ends src from hi s room =
    elim (Bool-cases (ltb from s.c_off || ltb (s.c_off + length s.c_buf) (from + 4))) [
      | inr h ↦ rw h (val (refl-Quiet s, ground arith, ground arith))
      | inl h ↦ rw h (cached (min scan_chunk (hi - from)) (omega arith) _ refl)
    ]
  where
    cached :
        (n : ℕ)
        → 4 ≤ n
        → (o : Option Bytes) → src.read_at from n ≡ o
        → Ends (Quiet src s) (λ u t. Filled src from s t) (cache_chunk from (answer_of n o) s)
    cached n four none answer = stop (λ e. cc) (refl-Quiet s)
    cached n four (some b) answer = elim (Bool-cases (length b == n)) [
      | inl e ↦ rw e (
          val (
            record {
              same_hdr = refl;
              same_last = refl;
              same_rep = refl;
              same_visited = refl;
              true_cache = λ c. inr (n, answer);
            },
            omega arith,
            ground arith,
          ))
      | inr e ↦ rw e (stop (λ x. cc) (refl-Quiet s))
    ]

At-mono : (from n hi : ℕ) (o : Option ℕ) → from ≤ n → At n hi o → At from hi o
At-mono from n hi none le h = tt
At-mono from n hi (some p) le (low, high) = (omega arith, high)

-- One round finds the marker in the cached chunk, or goes on behind `from`.
step-Ends :
    (src : Source) (next : ℕ → Run (Option ℕ)) (from hi : ℕ) (s t : SegScan)
    → from + 4 ≤ hi
    → Filled src from s t
    → ((n : ℕ) → from < n → Ends (Quiet src t) (λ o u. Quiet src t u × At n hi o) (next n t))
    → Ends (Quiet src s) (λ o u. Quiet src s u × At from hi o) (find_step next from hi t t)
step-Ends src next from hi s t room (q, low, high) go =
    let chunk = take (chunk_end t hi - (from - t.c_off)) (drop (from - t.c_off) t.c_buf) in
    result (index_sync chunk) (λ i e. omega (
      arith,
      index_sync_room chunk i e,
      length-take_cap (chunk_end t hi - (from - t.c_off)) (drop (from - t.c_off) t.c_buf),
    ))
  where
    behind : ℕ
    behind = t.c_off + chunk_end t hi - 4 + 1

    result :
        (o : Option ℕ)
        → ((i : ℕ) → o ≡ some i → from + i + 4 ≤ hi)
        → Ends
            (Quiet src s)
            (λ x u. Quiet src s u × At from hi x)
            (find_result next from behind o t)
    result none in_chunk =
        Ends-mono (go behind (omega arith)) (λ u w. trans-Quiet q w)
          (λ x u (quiet, at). (trans-Quiet q quiet, At-mono from behind hi x (omega arith) at))
    result (some i) in_chunk = val (q, (omega arith, in_chunk i refl))

find_loop-Ends :
    (src : Source) (fuel from hi : ℕ) (s : SegScan)
    → hi - from ≤ fuel
    → Ends (Quiet src s) (λ o u. Quiet src s u × At from hi o) (find_loop src fuel from hi s)
unfolding find_loop continue
find_loop-Ends src zero from hi s enough = rw (small) (val (refl-Quiet s, tt))
  where
    small : leb (from + 4) hi ≡ false
    small = ground arith
find_loop-Ends src (suc fuel) from hi s enough = elim (Bool-cases (leb (from + 4) hi)) [
  | inr h ↦ rw h (val (refl-Quiet s, tt))
  | inl h ↦ rw h (
      bind_rule (fill-Ends src from hi s (ground arith)) (λ t w. w)
        (λ u t filled.
          step-Ends src (λ n. find_loop src fuel n hi) from hi s t (ground arith) filled
            (λ n lt. find_loop-Ends src fuel n hi t (omega arith))))
]

find_sync-Ends :
    (src : Source) (from to : ℕ) (s : SegScan)
    → Ends
        (Quiet src s)
        (λ o u. Quiet src s u × At from (min (to + 4) src.size) o)
        (find_sync src from to s)
unfolding find_sync
find_sync-Ends src from to s = find_loop-Ends src _ from (min (to + 4) src.size) s (omega arith)

candidate-Ends :
    (src : Source) (off : ℕ) (s : SegScan)
    → Ends (Quiet src s) (λ ok t. Quiet src s t) (candidate src off s)
unfolding candidate continue
candidate-Ends src off s =
    bind_rule (frame_at-Ends src off true s) (λ t w. w) (λ f t framed. val framed.quiet)

-- The offset that a search from `from` to `hi` has found.
abbrev pub Between : ℕ → ℕ → Resync → Type 0
Between from hi (lost abandoned) = Unit
Between from hi (found p) = (from ≤ p) × (p ≤ hi)

Between-mono : (from n hi : ℕ) (r : Resync) → from ≤ n → Between n hi r → Between from hi r
Between-mono from n hi (lost abandoned) le h = tt
Between-mono from n hi (found p) le (low, high) = (omega arith, high)

judge-Ends :
    (src : Source) (next : Run Resync) (q at hi : ℕ) (s : SegScan) (r : Answer Bool × SegScan)
    → q ≤ at
    → at ≤ hi
    → Ends (Quiet src s) (λ ok t. Quiet src s t) r
    → ((t : SegScan)
        → Quiet src s t
        → Ends (Quiet src s) (λ o u. Quiet src s u × Between q hi o) (next t))
    → Ends (Quiet src s) (λ o u. Quiet src s u × Between q hi o) (judge next at r)
judge-Ends src next q at hi s _ low high (val {a = ok} {s = t} quiet) go =
    elim (Bool-cases t.budget_blown) [
      | inl b ↦ simp b (val (quiet, tt))
      | inr b ↦ simp b (elim (Bool-cases ok) [
        | inl c ↦ rw c (val (quiet, (low, high)))
        | inr c ↦ rw c (go t quiet)
      ])
    ]
judge-Ends src next q at hi s _ low high (stop {s = t} ne quiet) go =
    elim (Bool-cases t.budget_blown) [
      | inl b ↦ simp b (val (quiet, tt))
      | inr b ↦ simp b (stop ne quiet)
    ]

-- A round: the candidate at the marker is judged, or the search goes on behind it.
tried-Ends :
    (src : Source) (next : ℕ → Run Resync) (abandoned : Bool) (q hi : ℕ) (o : Option ℕ)
    (t : SegScan)
    → At q (hi + 4) o
    → ((n : ℕ) (v : SegScan)
        → q < n
        → n ≤ hi + 1
        → Ends (Quiet src v) (λ r u. Quiet src v u × Between n hi r) (next n v))
    → Ends (Quiet src t) (λ r u. Quiet src t u × Between q hi r) (try_at src next abandoned o t)
tried-Ends src next abandoned q hi none t at go = val (refl-Quiet t, tt)
tried-Ends src next abandoned q hi (some p) t (low, high) go =
    judge-Ends src (next (p + 1)) q p hi t (candidate src p t) low (omega arith)
      (candidate-Ends src p t)
      (λ v w.
        Ends-mono (go (p + 1) v (omega arith) (omega arith)) (λ u x. trans-Quiet w x)
          (λ r u (x, between).
            (trans-Quiet w x, Between-mono q (p + 1) hi r (omega arith) between)))

At-widen : (from hi k : ℕ) (o : Option ℕ) → hi ≤ k → At from hi o → At from k o
At-widen from hi k none le h = tt
At-widen from hi k (some p) le (low, high) = (low, omega arith)

-- From `q` on there are `hi + 1 - q` offsets to try.
resync_loop-Ends :
    (src : Source) (fuel : ℕ) (abandoned : Bool) (q hi : ℕ) (s : SegScan)
    → hi + 1 - q < fuel
    → Ends
        (Quiet src s)
        (λ o u. Quiet src s u × Between q hi o)
        (resync_loop src fuel abandoned q hi s)
unfolding resync_loop
resync_loop-Ends src zero abandoned q hi s enough = absurd (omega arith)
resync_loop-Ends src (suc fuel) abandoned q hi s enough =
    bind_rule (find_sync-Ends src q hi s) (λ t w. w)
      (λ o t (quiet, at).
        Ends-mono
          (tried-Ends src (λ n. resync_loop src fuel abandoned n hi) abandoned q hi o t
            (At-widen q (min (hi + 4) src.size) (hi + 4) o (omega arith) at)
            (λ n v lt le. resync_loop-Ends src fuel abandoned n hi v (omega arith)))
          (λ u x. trans-Quiet quiet x) (λ r u (x, between). (trans-Quiet quiet x, between)))

-- The search behind damage at `off` ends, and what it finds lies behind `off`, inside the segment and
-- inside the bytes that it may look at.
pub resync-Ends :
    (src : Source) (off : ℕ) (s : SegScan)
    → off < src.size
    → Ends
        (Quiet src s)
        (λ r t. Quiet src s t × Between (off + 1) (min (off + src.max_resync) (src.size - 1)) r)
        (resync src off s)
unfolding resync continue
resync-Ends src off s in_file =
    Ends-mono
      (resync_loop-Ends src _ _ (off + 1) (min (off + src.max_resync) (src.size - 1))
        (record s { spent = 0; budget_blown = false }) (omega arith))
      (λ u x. trans-Quiet reset x) (λ r u (x, between). (trans-Quiet reset x, between))
  where
    reset : Quiet src s (record s { spent = 0; budget_blown = false })
    reset = record {
      same_hdr = refl;
      same_last = refl;
      same_rep = refl;
      same_visited = refl;
      true_cache = λ c. c;
    }

-- ===== src/Journal/Rules.antt =====
-- internal/flightrec/journal/scan.go: how the end of a method of `segScan` follows from the ends of the
-- methods that it calls.
use dev_cadence.Prelude.{
  ℕ, ◌+◌, ◌-◌, ◌≤◌, ◌≡◌, ◌≢◌, ◌⊎◌, [], refl, ◌∙◌, Option, none, some, inl, inr, length, Bool-cases,
  arith,
}
use dev_cadence.Bytes.{Bytes, ◌==◌, take, drop}
use dev_cadence.Journal.Machine.{
  Source, SegScan, ScanError, stuck, Answer, Run, continue, answer_of,
}

-- A method ends with an error of the reader or of the visitor, in a state for which `E` holds, or with
-- a result for which `Q` holds.
pub data Ends {A : Type 0} (E : SegScan → Type 0) (Q : A → SegScan → Type 0)
    : Answer A × SegScan → Type 0 where
  val : {a : A} {s : SegScan} → Q a s → Ends E Q (Answer.val a, s)
  stop : {x : ScanError} {s : SegScan} → x ≢ stuck → E s → Ends E Q (Answer.stop x, s)

module _ {A B : Type 0} {D E : SegScan → Type 0} {Q : A → SegScan → Type 0}
    {R : B → SegScan → Type 0} where
  pub bind_rule :
      {r : Answer A × SegScan} {f : A → Run B}
      → Ends D Q r
      → ((s : SegScan) → D s → E s)
      → ((a : A) (s : SegScan) → Q a s → Ends E R (f a s))
      → Ends E R (continue f r)
  unfolding continue
  bind_rule (val {a} {s} q) w h = h a s q
  bind_rule (stop {s = s} ne d) w h = stop ne (w s d)

module _ {A : Type 0} {D E : SegScan → Type 0} {Q R : A → SegScan → Type 0} where
  pub Ends-mono :
      {r : Answer A × SegScan}
      → Ends D Q r
      → ((s : SegScan) → D s → E s)
      → ((a : A) (s : SegScan) → Q a s → R a s)
      → Ends E R r
  Ends-mono (val q) w h = val (h _ _ q)
  Ends-mono (stop {s = s} ne d) w h = stop ne (w s d)

pub answer-Ends :
    {E : SegScan → Type 0} {Q : Bytes → SegScan → Type 0} (n : ℕ) (o : Option Bytes) (s : SegScan)
    → E s
    → ((b : Bytes) → o ≡ some b → length b ≡ n → Q b s)
    → Ends E Q (answer_of n o, s)
answer-Ends n none s w h = stop (λ e. cc) w
answer-Ends n (some b) s w h = elim (Bool-cases (length b == n)) [
  | inl e ↦ rw e (val (h b refl (ground arith)))
  | inr e ↦ rw e (stop (λ x. cc) w)
]

-- The bytes stand at the offset in an answer of the reader.
pub record ReadFrom (src : Source) (off : ℕ) (b : Bytes) : Type 0 where
  pub start : ℕ
  pub asked : ℕ
  pub chunk : Bytes
  pub answered : src.read_at start asked ≡ some chunk
  pub behind : start ≤ off
  pub inside : off + length b ≤ start + length chunk
  pub piece : b ≡ take (length b) (drop (off - start) chunk)

-- The chunk that is cached is an answer of the reader at its offset.
abbrev pub Cached : Source → SegScan → Type 0
Cached src s = (s.c_buf ≡ []) ⊎ ((n : ℕ) × (src.read_at s.c_off n ≡ some s.c_buf))

-- Nothing that the report, the visitor or the next frame depends on has changed.
pub record Quiet (src : Source) (s t : SegScan) : Type 0 where
  pub same_hdr : t.hdr ≡ s.hdr
  pub same_last : t.last ≡ s.last
  pub same_rep : t.rep ≡ s.rep
  pub same_visited : t.visited ≡ s.visited
  pub true_cache : Cached src s → Cached src t

pub refl-Quiet : {src : Source} (s : SegScan) → Quiet src s s
refl-Quiet s = record {
  same_hdr = refl;
  same_last = refl;
  same_rep = refl;
  same_visited = refl;
  true_cache = λ c. c;
}

pub trans-Quiet : {src : Source} {s t u : SegScan} → Quiet src s t → Quiet src t u → Quiet src s u
trans-Quiet a b = record {
  same_hdr = b.same_hdr ∙ a.same_hdr;
  same_last = b.same_last ∙ a.same_last;
  same_rep = b.same_rep ∙ a.same_rep;
  same_visited = b.same_visited ∙ a.same_visited;
  true_cache = λ c. b.true_cache (a.true_cache c);
}

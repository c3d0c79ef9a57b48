-- ===== src/Compaction/Pruning/Sorting.antt =====
-- internal/compaction/pruning.go: the order of the amendments.
use dev_cadence.Prelude.{
  ℕ, ℤ, eq_ℤ, ◌≡◌, ◌≤◌, ◌<ℤ◌, ◌⊎◌, lt_ℤ, refl, ap, ◌∙◌, Bool, true, false, List, [], ◌∷◌, ◌&&◌,
  if◌then◌else◌, Bool-cases, inl, inr, arith, All, All-map,
}
use dev_cadence.Bytes.{◌==◌}
use dev_cadence.Compaction.Types.{Amendment}
use dev_cadence.Compaction.Pruning.{before, insert_amendment, sort_amendments}

-- A higher level, or the same level and no higher sequence.
abbrev pub InOrder : Amendment → Amendment → Type 0
InOrder a b =
    (b.authority_level <ℤ a.authority_level)
    ⊎ ((eq_ℤ a.authority_level b.authority_level ≡ true) × (a.journal_seq ≤ b.journal_seq))

pub Ordered : List Amendment → Type 0
Ordered [] = Unit
Ordered (a ∷ rest) = All (λ b. InOrder a b) rest × Ordered rest

-- No later amendment belongs before an earlier one.
Sorted : List Amendment → Type 0
Sorted [] = Unit
Sorted (a ∷ rest) = All (λ b. before b a ≡ false) rest × Sorted rest

abbrev has_key : ℤ → ℕ → Amendment → Bool
has_key level seq a = eq_ℤ a.authority_level level && (a.journal_seq == seq)

-- The amendments of one level and one sequence, in their order.
abbrev pub with_key : ℤ → ℕ → List Amendment → List Amendment
with_key level seq [] = []
with_key level seq (a ∷ rest) =
    if has_key level seq a then a ∷ with_key level seq rest else with_key level seq rest

not_before-InOrder : (a b : Amendment) → before b a ≡ false → InOrder a b
not_before-InOrder a b h = elim (Bool-cases (lt_ℤ b.authority_level a.authority_level)) [
  | inl e ↦ inl (ground (arith, e))
  | inr e ↦ inr (ground (arith, e, h))
]

Sorted-Ordered : (rest : List Amendment) → Sorted rest → Ordered rest
unfolding Sorted Ordered
Sorted-Ordered [] h = tt
Sorted-Ordered (a ∷ rest) (q, h) =
    (All-map (λ b k. not_before-InOrder a b k) rest q, Sorted-Ordered rest h)

before_asym : (a b : Amendment) → before b a ≡ true → before a b ≡ false
before_asym a b h = ground (arith, h)

not_before_trans :
    (a b c : Amendment) → before b a ≡ false → before c b ≡ false → before c a ≡ false
not_before_trans a b c h k = ground (arith, h, k)

All-insert_amendment :
    (P : Amendment → Type 0) (a : Amendment) (bs : List Amendment)
    → P a
    → All P bs
    → All P (insert_amendment a bs)
unfolding insert_amendment
All-insert_amendment P a [] p h = (p, tt)
All-insert_amendment P a (b ∷ bs) p (q, h) = elim (Bool-cases (before b a)) [
  | inl e ↦ rw e (q, All-insert_amendment P a bs p h)
  | inr e ↦ rw e (p, (q, h))
]

insert_amendment-Sorted :
    (a : Amendment) (bs : List Amendment) → Sorted bs → Sorted (insert_amendment a bs)
unfolding Sorted insert_amendment
insert_amendment-Sorted a [] h = (tt, tt)
insert_amendment-Sorted a (b ∷ bs) (q, h) = elim (Bool-cases (before b a)) [
  | inl e ↦ rw e (
    All-insert_amendment (λ c. before c b ≡ false) a bs (before_asym a b e) q,
    insert_amendment-Sorted a bs h,
  )
  | inr e ↦ rw e ((e, All-map (λ c k. not_before_trans a b c e k) bs q), (q, h))
]

keys_differ :
    (level : ℤ) (seq : ℕ) (a b : Amendment)
    → before b a ≡ true
    → has_key level seq a ≡ true
    → has_key level seq b ≡ false
keys_differ level seq a b h k = ground (arith, h, k)

abbrev put_first : Bool → Amendment → List Amendment → List Amendment
put_first c a rest = if c then a ∷ rest else rest

swap_first :
    (c d : Bool) (a b : Amendment) (rest : List Amendment)
    → (c ≡ true → d ≡ false)
    → put_first d b (put_first c a rest) ≡ put_first c a (put_first d b rest)
swap_first true d a b rest h = rw (h refl) refl
swap_first false d a b rest h = refl

with_key-insert_amendment :
    (level : ℤ) (seq : ℕ) (a : Amendment) (bs : List Amendment)
    → with_key level seq (insert_amendment a bs) ≡ with_key level seq (a ∷ bs)
unfolding insert_amendment
with_key-insert_amendment level seq a [] = refl
with_key-insert_amendment level seq a (b ∷ bs) = elim (Bool-cases (before b a)) [
  | inr e ↦ rw e refl
  | inl e ↦ rw e (
      ap (put_first (has_key level seq b) b) (with_key-insert_amendment level seq a bs)
      ∙ swap_first (has_key level seq a) (has_key level seq b) a b (with_key level seq bs)
          (keys_differ level seq a b e))
]

sort_amendments-Sorted : (rest : List Amendment) → Sorted (sort_amendments rest)
unfolding sort_amendments Sorted
sort_amendments-Sorted [] = tt
sort_amendments-Sorted (a ∷ rest) =
    insert_amendment-Sorted a (sort_amendments rest) (sort_amendments-Sorted rest)

with_key-sort_amendments :
    (level : ℤ) (seq : ℕ) (rest : List Amendment)
    → with_key level seq (sort_amendments rest) ≡ with_key level seq rest
unfolding sort_amendments
with_key-sort_amendments level seq [] = refl
with_key-sort_amendments level seq (a ∷ rest) =
    with_key-insert_amendment level seq a (sort_amendments rest)
    ∙ ap (put_first (has_key level seq a) a) (with_key-sort_amendments level seq rest)

-- For every list of amendments, the sorted list has no amendment before one of a higher level, nor
-- before one of its level and a lower sequence; and for each level and sequence the amendments that bear
-- them are the same as before, in the same order.
pub sort_amendments_lem :
    (rest : List Amendment)
    → Ordered (sort_amendments rest)
      × ((level : ℤ) (seq : ℕ)
          → with_key level seq (sort_amendments rest) ≡ with_key level seq rest)
sort_amendments_lem rest = (
  Sorted-Ordered (sort_amendments rest) (sort_amendments-Sorted rest),
  λ level seq. with_key-sort_amendments level seq rest,
)

-- ===== src/Bytes.antt =====
-- Go's `[]byte` and `string` as lists of numbers, with the slices that internal/flightrec takes.
mod Utf8
unfoldable pub use Utf8.{valid_utf8}
use Prim.Native.Nat.{compare, Ordering}
use dev_cadence.Prelude.{
  ℕ, zero, suc, ◌+◌, ◌-◌, ◌≤◌, ◌<◌, ◌≡◌, refl, ap, Bool, true, false, List, [], ◌∷◌, ◌++◌, ◌&&◌,
  length, arith,
}

abbrev pub Bytes : Type 0
Bytes = List ℕ

infix 50 ◌==◌
abbrev pub ◌==◌ : ℕ → ℕ → Bool
a == b = elim (compare a b) [ Ordering.eq ↦ true | _ ↦ false ]

-- `bytes.Equal`
abbrev pub equal : Bytes → Bytes → Bool
equal [] [] = true
equal [] (y ∷ ys) = false
equal (x ∷ xs) [] = false
equal (x ∷ xs) (y ∷ ys) = (x == y) && equal xs ys

pub equal_refl : (xs : Bytes) → equal xs xs ≡ true
equal_refl [] = refl
equal_refl (x ∷ xs) = ground (arith, equal_refl xs)

pub equal-eq : (xs ys : Bytes) → equal xs ys ≡ true → xs ≡ ys
equal-eq [] [] h = refl
equal-eq [] (y ∷ ys) h = cc
equal-eq (x ∷ xs) [] h = cc
equal-eq (x ∷ xs) (y ∷ ys) h = ground (arith, equal-eq xs ys)

module _ {ℓ} {A : Type ℓ} where
  -- `b[:n]` and `b[n:]`
  unfoldable pub take : ℕ → List A → List A
  take zero xs = []
  take (suc n) [] = []
  take (suc n) (x ∷ xs) = x ∷ take n xs

  unfoldable pub drop : ℕ → List A → List A
  drop zero xs = xs
  drop (suc n) [] = []
  drop (suc n) (x ∷ xs) = drop n xs

  pub take-append : (xs ys : List A) → take (length xs) (xs ++ ys) ≡ xs
  unfolding take
  take-append [] ys = refl
  take-append (x ∷ xs) ys = ap (λ t. x ∷ t) (take-append xs ys)

  pub drop-append : (xs ys : List A) → drop (length xs) (xs ++ ys) ≡ ys
  unfolding drop
  drop-append [] ys = refl
  drop-append (x ∷ xs) ys = drop-append xs ys

  pub length-drop : (n : ℕ) (xs : List A) → length (drop n xs) ≡ length xs - n
  unfolding drop
  length-drop zero xs = omega arith
  length-drop (suc n) [] = omega arith
  length-drop (suc n) (x ∷ xs) = omega (arith, length-drop n xs)

  pub length-take : (n : ℕ) (xs : List A) → n ≤ length xs → length (take n xs) ≡ n
  unfolding take
  length-take zero xs h = refl
  length-take (suc n) [] h = absurd (omega arith)
  length-take (suc n) (x ∷ xs) h = omega (arith, length-take n xs (omega arith))

  pub take_all : (xs : List A) → take (length xs) xs ≡ xs
  unfolding take
  take_all [] = refl
  take_all (x ∷ xs) = ap (λ t. x ∷ t) (take_all xs)

  pub drop-drop : (n k : ℕ) (xs : List A) → drop k (drop n xs) ≡ drop (n + k) xs
  unfolding drop
  drop-drop zero k xs = let at : zero + k ≡ k = omega arith in rw at refl
  drop-drop (suc n) zero [] = let at : suc n + 0 ≡ suc n = omega arith in rw at refl
  drop-drop (suc n) (suc k) [] =
      let at : suc n + suc k ≡ suc (n + suc k) = omega arith in rw at refl
  drop-drop (suc n) k (x ∷ xs) =
      let at : suc n + k ≡ suc (n + k) = omega arith in rw at (drop-drop n k xs)

  -- A piece inside what was taken first.
  pub take-drop-take :
      (n k size : ℕ) (xs : List A)
      → k + n ≤ size
      → take n (drop k (take size xs)) ≡ take n (drop k xs)
  unfolding take drop
  take-drop-take zero k size xs h = refl
  take-drop-take (suc n) zero zero xs h = absurd (omega arith)
  take-drop-take (suc n) zero (suc size) [] h = refl
  take-drop-take (suc n) zero (suc size) (x ∷ xs) h =
      ap (λ t. x ∷ t) (take-drop-take n zero size xs (omega arith))
  take-drop-take (suc n) (suc k) zero xs h = absurd (omega arith)
  take-drop-take (suc n) (suc k) (suc size) [] h = refl
  take-drop-take (suc n) (suc k) (suc size) (x ∷ xs) h =
      take-drop-take (suc n) k size xs (omega arith)

  pub length-take_le : (n : ℕ) (xs : List A) → length (take n xs) ≤ length xs
  unfolding take
  length-take_le zero xs = omega arith
  length-take_le (suc n) [] = omega arith
  length-take_le (suc n) (x ∷ xs) = omega (arith, length-take_le n xs)

  pub length-take_cap : (n : ℕ) (xs : List A) → length (take n xs) ≤ n
  unfolding take
  length-take_cap zero xs = omega arith
  length-take_cap (suc n) [] = omega arith
  length-take_cap (suc n) (x ∷ xs) = omega (arith, length-take_cap n xs)

  pub take-drop : (n : ℕ) (xs : List A) → take n xs ++ drop n xs ≡ xs
  unfolding take drop
  take-drop zero xs = refl
  take-drop (suc n) [] = refl
  take-drop (suc n) (x ∷ xs) = ap (λ t. x ∷ t) (take-drop n xs)

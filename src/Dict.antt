-- ===== src/Dict.antt =====
-- Go's `map[string]V` as an association list. `put` overwrites in place, so a key stands once.
use dev_cadence.Prelude.{
  String, ◌≡◌, ◌⊎◌, refl, false, Option, none, some, List, [], ◌∷◌, arith, ◌==◌, eq_iff, eq_refl,
  if◌then◌else◌,
}

abbrev pub Dict {ℓ} : Type ℓ → Type ℓ
Dict V = List (String × V)

module _ {ℓ} {V : Type ℓ} where
  unfoldable pub get : Dict V → String → Option V
  get [] k = none
  get ((j, v) ∷ m) k = let rest = get m k in if j == k then some v else rest

  unfoldable pub put : Dict V → String → V → Dict V
  put [] k v = (k, v) ∷ []
  put ((j, w) ∷ m) k v = let rest = put m k v in if j == k then (k, v) ∷ m else (j, w) ∷ rest

  unfoldable pub delete : Dict V → String → Dict V
  delete [] k = []
  delete ((j, v) ∷ m) k = let rest = delete m k in if j == k then rest else (j, v) ∷ rest

  pub get-empty : (k : String) → get [] k ≡ none
  unfolding get
  get-empty k = refl

  pub get-put :
      (m : Dict V) (k j : String) (v : V) → get (put m k v) j ≡ (if k == j then some v else get m j)
  unfolding get put
  get-put [] k j v = refl
  get-put ((i, w) ∷ m) k j v = ground (arith, eq_iff k j, eq_iff i k, eq_iff i j, get-put m k j v)

  pub get-delete :
      (m : Dict V) (k j : String) → get (delete m k) j ≡ (if k == j then none else get m j)
  unfolding get delete
  get-delete [] k j = ground arith
  get-delete ((i, v) ∷ m) k j = ground (arith, get-delete m k j, eq_iff i k, eq_iff i j, eq_iff k j)

  pub get-put_self : (m : Dict V) (k : String) (v : V) → get (put m k v) k ≡ some v
  get-put_self m k v = simp (get-put, eq_refl)

  -- What a map holds after a write: the new value at its key, or what it held elsewhere.
  pub get-put_inv :
      (m : Dict V) (k j : String) (v w : V)
      → get (put m k v) j ≡ some w
      → ((k ≡ j) × (v ≡ w)) ⊎ (((k == j) ≡ false) × (get m j ≡ some w))
  get-put_inv m k j v w h = ground (arith, get-put m k j v, eq_iff k j)

  -- A write at a free key, or of the same value, loses nothing.
  pub get-put_fresh :
      (m : Dict V) (k j : String) (v w : V)
      → get m k ≡ none
      → get m j ≡ some w
      → get (put m k v) j ≡ some w
  get-put_fresh m k j v w free h = ground (arith, get-put m k j v, eq_iff k j)

  pub get-put_ne :
      (m : Dict V) (k j : String) (v : V) → (k == j) ≡ false → get (put m k v) j ≡ get m j
  get-put_ne m k j v h = rw (get-put, h)

-- ===== src/State/Index/Lists.antt =====
-- A list of keys beside a map: appending, overwriting and removing.
use dev_cadence.Prelude.{
  String, ◌≡◌, ◌∙◌, refl, true, false, not, ◌&&◌, ◌==◌, List, [], ◌∷◌, ◌++◌, contains,
  contains-append, is_some, arith, eq_iff,
}
use dev_cadence.Dict.{Dict, get, put, delete, get-put, get-delete}
use dev_cadence.State.Discovery.{remove_string}

abbrev pub Unique : List String → Type 0
Unique [] = Unit
Unique (x ∷ xs) = (contains xs x ≡ false) × Unique xs

pub record IsIndex {V : Type 0} (m : Dict V) (ids : List String) : Type 0 where
  pub same : (k : String) → contains ids k ≡ is_some (get m k)
  pub unique : Unique ids

pub IsIndex-empty : {V : Type 0} → IsIndex {V = V} [] []
unfolding get
IsIndex-empty = record { same = λ k. refl; unique = tt }

Unique-append :
    (xs : List String) (a : String) → contains xs a ≡ false → Unique xs → Unique (xs ++ a ∷ [])
Unique-append [] a new u = (refl, tt)
Unique-append (x ∷ xs) a new u = (
  ground (arith, contains-append xs a x, eq_iff x a, eq_iff a x),
  Unique-append xs a (ground arith) u.1,
)

contains-remove :
    (xs : List String) (a k : String)
    → contains (remove_string xs a) k ≡ (not (a == k) && contains xs k)
unfolding remove_string
contains-remove [] a k = ground arith
contains-remove (x ∷ xs) a k =
    ground (arith, contains-remove xs a k, eq_iff a k, eq_iff x a, eq_iff x k)

Unique-remove : (xs : List String) (a : String) → Unique xs → Unique (remove_string xs a)
unfolding remove_string
Unique-remove [] a u = tt
Unique-remove (x ∷ xs) a u = ground (arith, Unique-remove xs a u.1, contains-remove xs a x)

module _ {V : Type 0} {m : Dict V} {ids : List String} (i : IsIndex m ids) (k : String) where
  pub IsIndex-add : (v : V) → is_some (get m k) ≡ false → IsIndex (put m k v) (ids ++ k ∷ [])
  IsIndex-add v new = record {
    same = λ j. ground (arith, contains-append ids k j, get-put m k j v, i.same j);
    unique = Unique-append ids k (i.same k ∙ new) i.unique;
  }

  pub IsIndex-rewrite : (v : V) → is_some (get m k) ≡ true → IsIndex (put m k v) ids
  IsIndex-rewrite v there = record {
    same = λ j. ground (arith, get-put m k j v, i.same j, eq_iff k j, i.same k);
    unique = i.unique;
  }

  pub IsIndex-remove : IsIndex (delete m k) (remove_string ids k)
  IsIndex-remove = record {
    same = λ j. ground (arith, contains-remove ids k j, get-delete m k j, i.same j);
    unique = Unique-remove ids k i.unique;
  }

-- ===== src/Errs.antt =====
-- internal/errs/errs.go: the error taxonomy. An `error` is its category; the message, which only
-- supplements the category, is left out.
use dev_cadence.Prelude.{◌≡◌, refl, Bool, true, false}

pub data Category : Type 0 where
  contradicted_assumption validation_failed policy_denied needs_principal : Category
  consultant_unavailable model_unavailable worktree_conflict unsupported : Category
  unauthenticated probe_failed probe_timeout no_eligible_endpoint : Category
  schema_version_unsupported invalid_transition invalid_argument not_found : Category
  conflict integrity context_unfit internal : Category

-- A result, or the category of the error that is returned in its place.
pub data Result {ℓ} (A : Type ℓ) : Type ℓ where
  ok : A → Result A
  err : Category → Result A

-- `if b { return errs.New(c, …) }`
abbrev pub refuse : Bool → Category → Result (Unit {0})
refuse true c = err c
refuse false c = ok tt

-- `v, err := …; if err != nil { return err }`
infixl 5 ◌>>=◌
abbrev pub ◌>>=◌ {ℓ κ} :
    {V : Type ℓ} {W : Type κ} (first : Result V) (rest : V → Result W) → Result W
(err c) >>= rest = err c
(ok v) >>= rest = rest v

-- `if err := …; err != nil { return err }`
infixl 5 ◌>>◌
abbrev pub ◌>>◌ {κ} : {W : Type κ} (check : Result (Unit {0})) (rest : Result W) → Result W
check >> rest = check >>= λ u. rest

-- A successful chain passed each of its steps.
pub >>-eq-ok {ℓ} :
    {B : Type ℓ} (m : Result (Unit {0})) (k : Result B) {b : B}
    → (m >> k) ≡ ok b
    → (m ≡ ok tt) × (k ≡ ok b)
>>-eq-ok (ok tt) k h = (refl, h)
>>-eq-ok (err c) k h = cc

module _ {ℓ κ} {V : Type ℓ} {W : Type κ} where
  pub >>=-eq-ok :
      (first : Result V) (rest : V → Result W) {w : W}
      → (first >>= rest) ≡ ok w
      → (v : V) × (first ≡ ok v) × (rest v ≡ ok w)
  >>=-eq-ok (err c) rest h = cc
  >>=-eq-ok (ok v) rest h = (v, refl, h)

pub refuse-eq-ok : (b : Bool) (c : Category) → refuse b c ≡ ok tt → b ≡ false
refuse-eq-ok true c h = cc
refuse-eq-ok false c h = refl

pub ok_injective {ℓ} : {A : Type ℓ} {a b : A} → ok a ≡ ok b → a ≡ b
ok_injective h = cc

-- ===== src/State/Exec.antt =====
-- The methods of internal/state that change their receiver and may return an error. What was written
-- before an error stays written, so the state comes back beside the error too.
use dev_cadence.Prelude.{◌≡◌, refl, subst, Bool, true, false, if◌then◌else◌}
use dev_cadence.Errs.{Category, Result, ok, err, refuse, ok_injective}

abbrev pub Exec : Type 0 → Type 0 → Type 0
Exec S A = S → Result A × S

-- What holds of the end of a method: `E` of the state that it leaves with an error, and `Q` of its
-- result and the state that it leaves with success.
pub record Ends {S A : Type 0} (E : S → Type 0) (Q : A → S → Type 0) (r : Result A × S)
    : Type 0 where
  pub on_ok : (a : A) → r.0 ≡ ok a → Q a r.1
  pub on_err : (c : Category) → r.0 ≡ err c → E r.1

module _ {S A : Type 0} where
  unfoldable pub pure : A → Exec S A
  pure a s = (ok a, s)

  -- A check or a lookup, which changes nothing.
  unfoldable pub lift : Result A → Exec S A
  lift r s = (r, s)

module _ {S : Type 0} where
  unfoldable pub ask : Exec S S
  ask s = (ok s, s)

  unfoldable pub modify : (S → S) → Exec S (Unit {0})
  modify f s = (ok tt, f s)

  -- `if b { return errs.New(c, …) }`
  unfoldable pub check : Bool → Category → Exec S (Unit {0})
  unfolding lift
  check b c = lift (refuse b c)

module _ {S A B : Type 0} where
  abbrev pub resume : (A → Exec S B) → Result A × S → Result B × S
  resume f (ok a, s) = f a s
  resume f (err c, s) = (err c, s)

  infixl 5 ◌>>=◌ ◌>>◌
  unfoldable pub ◌>>=◌ : Exec S A → (A → Exec S B) → Exec S B
  unfolding pure lift ask modify check
  ◌>>=◌ m f s = resume f (m s)

  abbrev pub ◌>>◌ : Exec S A → Exec S B → Exec S B
  m >> n = m >>= λ _. n

module _ {S A : Type 0} {E : S → Type 0} {Q : A → S → Type 0} where
  pub ok-Ends : (a : A) (s : S) → Q a s → Ends E Q (ok a, s)
  ok-Ends a s h = record {
    on_ok = λ b e. subst (λ x. Q x s) (ok_injective e) h;
    on_err = λ c e. cc;
  }

  pub err-Ends : (c : Category) (s : S) → E s → Ends E Q (err c, s)
  err-Ends c s h = record { on_ok = λ b e. cc; on_err = λ d e. h }

module _ {S A B : Type 0} {E : S → Type 0} {Q : B → S → Type 0} where
  resume_rule :
      {R : A → S → Type 0} (r : Result A × S) (f : A → Exec S B)
      → Ends E R r
      → ((a : A) (s : S) → R a s → Ends E Q (f a s))
      → Ends E Q (resume f r)
  resume_rule (ok a, s) f h k = k a s (h.on_ok a refl)
  resume_rule (err c, s) f h k = err-Ends c s (h.on_err c refl)

  -- The rest of a method starts where the first part ended.
  pub bind_rule :
      {R : A → S → Type 0} (m : Exec S A) (f : A → Exec S B) (s : S)
      → Ends E R (m s)
      → ((a : A) (t : S) → R a t → Ends E Q (f a t))
      → Ends E Q ((m >>= f) s)
  unfolding ◌>>=◌
  bind_rule m f s h k = resume_rule (m s) f h k

  -- After a check or a lookup the state is the same, and it succeeded.
  pub lift_rule :
      (r : Result A) (f : A → Exec S B) (s : S)
      → E s
      → ((a : A) → r ≡ ok a → Ends E Q (f a s))
      → Ends E Q ((lift r >>= f) s)
  unfolding ◌>>=◌
  lift_rule (ok a) f s e k = k a refl
  lift_rule (err c) f s e k = err-Ends c s e

  -- A check or a lookup that is known to succeed.
  pub lift_ok_rule :
      {r : Result A} (a : A) (f : A → Exec S B) (s : S)
      → r ≡ ok a
      → Ends E Q (f a s)
      → Ends E Q ((lift r >>= f) s)
  unfolding ◌>>=◌
  lift_ok_rule a f s e h = rw e h

module _ {S B : Type 0} {E : S → Type 0} {Q : B → S → Type 0} where
  pub ask_rule : (f : S → Exec S B) (s : S) → Ends E Q (f s s) → Ends E Q ((ask >>= f) s)
  unfolding ◌>>=◌
  ask_rule f s h = h

  pub check_rule :
      (b : Bool) (c : Category) (n : Exec S B) (s : S)
      → E s
      → (b ≡ false → Ends E Q (n s))
      → Ends E Q ((check b c >> n) s)
  unfolding ◌>>=◌
  check_rule true c n s e k = err-Ends c s e
  check_rule false c n s e k = k refl

  pub modify_rule :
      (g : S → S) (n : Exec S B) (s : S) → Ends E Q (n (g s)) → Ends E Q ((modify g >> n) s)
  unfolding ◌>>=◌
  modify_rule g n s h = h

module _ {S : Type 0} {E : S → Type 0} {Q : Unit {0} → S → Type 0} where
  pub modify-Ends : (g : S → S) (s : S) → Q tt (g s) → Ends E Q (modify g s)
  unfolding modify
  modify-Ends g s h = ok-Ends tt (g s) h

  pub lift-Ends : (r : Result (Unit {0})) (s : S) → E s → (r ≡ ok tt → Q tt s) → Ends E Q (lift r s)
  unfolding lift
  lift-Ends (ok _) s e k = ok-Ends tt s (k refl)
  lift-Ends (err c) s e k = err-Ends c s e

pub if_rule :
    {S A : Type 0} {E : S → Type 0} {Q : A → S → Type 0} (b : Bool) (m n : Exec S A) (s : S)
    → (b ≡ true → Ends E Q (m s))
    → (b ≡ false → Ends E Q (n s))
    → Ends E Q ((if b then m else n) s)
if_rule true m n s h k = h refl
if_rule false m n s h k = k refl

-- A weaker postcondition.
pub Ends-mono :
    {S A : Type 0} {E : S → Type 0} {Q R : A → S → Type 0} {r : Result A × S}
    → ((a : A) (s : S) → Q a s → R a s)
    → Ends E Q r
    → Ends E R r
Ends-mono {r} f h = record { on_ok = λ a e. f a r.1 (h.on_ok a e); on_err = h.on_err }

-- A method that cannot fail leaves whatever is asked of a failure.
pub Ends-no_error :
    {S A : Type 0} {E : S → Type 0} {Q R : A → S → Type 0} {r : Result A × S}
    → ((a : A) (s : S) → Q a s → R a s)
    → Ends (λ _. ⊥) Q r
    → Ends E R r
Ends-no_error {r} f h = record {
  on_ok = λ a e. f a r.1 (h.on_ok a e);
  on_err = λ c e. absurd (h.on_err c e);
}

-- Two postconditions of one method.
pub Ends-both :
    {S A : Type 0} {E F : S → Type 0} {Q R : A → S → Type 0} {r : Result A × S}
    → Ends E Q r
    → Ends F R r
    → Ends E (λ a s. Q a s × R a s) r
Ends-both h k = record { on_ok = λ a e. (h.on_ok a e, k.on_ok a e); on_err = h.on_err }

-- ===== src/State/Frame.antt =====
-- The project's identity and its accepted commit, and methods of internal/state that do not touch them.
pub mod Handlers
pub mod Effects
use dev_cadence.Prelude.{String, ◌≡◌, ◌∙◌, refl, Bool, true, false, if◌then◌else◌}
use dev_cadence.Errs.{Category, Result}
use dev_cadence.State.Exec.{
  Exec, Ends, pure, lift, ask, modify, check, ◌>>=◌, ◌>>◌, ok-Ends, lift-Ends, bind_rule,
  modify-Ends, if_rule, Ends-mono,
}
use dev_cadence.State.Projection.{Projection}

pub record Frame (p s : Projection) : Type 0 where
  pub project_id : s.project_id ≡ p.project_id
  pub initialised : s.initialised ≡ p.initialised
  pub accepted_commit : s.accepted_commit ≡ p.accepted_commit

pub framed :
    {p s : Projection}
    → s.project_id ≡ p.project_id
    → s.initialised ≡ p.initialised
    → s.accepted_commit ≡ p.accepted_commit
    → Frame p s
framed h i c = record { project_id = h; initialised = i; accepted_commit = c }

pub Frame-refl : (p : Projection) → Frame p p
Frame-refl p = record { project_id = refl; initialised = refl; accepted_commit = refl }

pub Frame-trans : {p q s : Projection} → Frame p q → Frame q s → Frame p s
Frame-trans f g = record {
  project_id = g.project_id ∙ f.project_id;
  initialised = g.initialised ∙ f.initialised;
  accepted_commit = g.accepted_commit ∙ f.accepted_commit;
}

-- A method that, when it succeeds, has changed neither.
abbrev pub Framed : {A : Type 0} → Exec Projection A → Type 0
Framed m = (p : Projection) → Ends (λ _. Unit {0}) (λ _ s. Frame p s) (m p)

pub pure-Framed : {A : Type 0} (a : A) → Framed (pure a)
unfolding pure
pure-Framed a p = ok-Ends a p (Frame-refl p)

pub ask-Framed : Framed ask
unfolding ask
ask-Framed p = ok-Ends p p (Frame-refl p)

pub lift-Framed : {A : Type 0} (r : Result A) → Framed (lift r)
unfolding lift
lift-Framed r p = record { on_ok = λ a e. Frame-refl p; on_err = λ c e. tt }

pub check-Framed : (b : Bool) (c : Category) → Framed (check b c)
unfolding check
check-Framed b c = lift-Framed _

pub modify-Framed :
    (g : Projection → Projection) → ((p : Projection) → Frame p (g p)) → Framed (modify g)
modify-Framed g h p = modify-Ends g p (h p)

module _ {A B : Type 0} where
  pub bind-Framed :
      (m : Exec Projection A) (f : A → Exec Projection B)
      → Framed m
      → ((a : A) → Framed (f a))
      → Framed (m >>= f)
  bind-Framed m f h k p =
      bind_rule m f p (h p) λ a t first. Ends-mono (λ _ s g. Frame-trans first g) (k a t)

pub if-Framed :
    {A : Type 0} (b : Bool) (m n : Exec Projection A)
    → Framed m
    → Framed n
    → Framed (if b then m else n)
if-Framed b m n h k p = if_rule b m n p (λ _. h p) (λ _. k p)

pub if-Frame :
    (b : Bool) (p q r : Projection) → Frame p q → Frame p r → Frame p (if b then q else r)
if-Frame true p q r h k = h
if-Frame false p q r h k = k

pub ruleset framing = (
  pure-Framed, ask-Framed, lift-Framed, check-Framed, modify-Framed, bind-Framed, if-Framed,
  if-Frame, framed, refl,
)

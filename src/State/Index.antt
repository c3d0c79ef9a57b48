-- ===== src/State/Index.antt =====
-- The ordered id lists of the projection of internal/state beside the maps that they index.
pub mod Lists
pub mod Handlers
pub mod Others
pub mod Discovery
pub mod Reduction
use dev_cadence.Prelude.{String, ◌≡◌, refl, sym, subst, Bool, true, false, if◌then◌else◌}
use dev_cadence.Errs.{Category, Result}
use dev_cadence.State.Exec.{
  Exec, Ends, pure, lift, ask, modify, check, ◌>>=◌, ok-Ends, bind_rule, modify-Ends, if_rule,
}
use dev_cadence.State.Projection.{Projection}
use dev_cadence.State.Index.Lists.{IsIndex}

-- Every list that the projection keeps for the order of a map names the keys of that map, each once.
pub record Indexed (p : Projection) : Type 0 where
  pub tasks : IsIndex p.tasks p.task_ids
  pub risks : IsIndex p.risks p.risk_ids
  pub decisions : IsIndex p.decisions_required p.decision_required_ids
  pub components : IsIndex p.components p.component_ids
  pub ambiguities : IsIndex p.discovery.open_ambiguities p.discovery.ambiguity_order

-- A method that keeps the lists right when it succeeds.
abbrev pub Keeps : {A : Type 0} → Exec Projection A → Type 0
Keeps m = (p : Projection) → Indexed p → Ends (λ _. Unit {0}) (λ _ s. Indexed s) (m p)

pub unchanged :
    (p s : Projection)
    → Indexed p
    → s.tasks ≡ p.tasks
    → s.task_ids ≡ p.task_ids
    → s.risks ≡ p.risks
    → s.risk_ids ≡ p.risk_ids
    → s.decisions_required ≡ p.decisions_required
    → s.decision_required_ids ≡ p.decision_required_ids
    → s.components ≡ p.components
    → s.component_ids ≡ p.component_ids
    → s.discovery ≡ p.discovery
    → Indexed s
unchanged p s h t ti r ri d di c ci a = record {
  tasks = rw (t, ti) h.tasks;
  risks = rw (r, ri) h.risks;
  decisions = rw (d, di) h.decisions;
  components = rw (c, ci) h.components;
  ambiguities = rw a h.ambiguities;
}

pub pure-Keeps : {A : Type 0} (a : A) → Keeps (pure a)
unfolding pure
pure-Keeps a p h = ok-Ends a p h

pub ask-Keeps : Keeps ask
unfolding ask
ask-Keeps p h = ok-Ends p p h

pub lift-Keeps : {A : Type 0} (r : Result A) → Keeps (lift r)
unfolding lift
lift-Keeps r p h = record { on_ok = λ a e. h; on_err = λ c e. tt }

pub check-Keeps : (b : Bool) (c : Category) → Keeps (check b c)
unfolding check
check-Keeps b c = lift-Keeps _

pub modify-Keeps :
    (g : Projection → Projection)
    → ((p : Projection) → Indexed p → Indexed (g p))
    → Keeps (modify g)
modify-Keeps g k p h = modify-Ends g p (k p h)

pub bind-Keeps :
    {A B : Type 0} (m : Exec Projection A) (f : A → Exec Projection B)
    → Keeps m
    → ((a : A) → Keeps (f a))
    → Keeps (m >>= f)
bind-Keeps m f h k p i = bind_rule m f p (h p i) λ a t j. k a t j

pub if-Keeps :
    {A : Type 0} (b : Bool) (m n : Exec Projection A)
    → Keeps m
    → Keeps n
    → Keeps (if b then m else n)
if-Keeps b m n h k p i = if_rule b m n p (λ _. h p i) (λ _. k p i)

pub ruleset keeping = (
  pure-Keeps, ask-Keeps, lift-Keeps, check-Keeps, modify-Keeps, bind-Keeps, if-Keeps, unchanged,
  refl,
)

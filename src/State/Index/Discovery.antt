-- ===== src/State/Index/Discovery.antt =====
-- The events of internal/state/discovery.go and the list of open ambiguities.
use dev_cadence.Prelude.{Bool, true, false, ◌==◌, if◌then◌else◌}
use dev_cadence.Events.Discovery.{
  ProblemModelRevised, AmbiguityOpened, AmbiguityResolved, ProductDecisionRecorded,
  RequirementRecorded, SpecificationReadinessRecorded,
}
use dev_cadence.State.Exec.{Exec, Ends, ask_rule, lift_rule, check_rule, modify_rule, modify-Ends}
use dev_cadence.State.Discovery.{
  DiscoveryState, apply_problem_model_revised, apply_ambiguity_opened, apply_ambiguity_resolved,
  apply_product_decision_recorded, apply_requirement_recorded, apply_readiness_recorded,
}
use dev_cadence.State.Apply.{on_discovery}
use dev_cadence.State.Index.{Keeps}
use dev_cadence.State.Index.Lists.{IsIndex, IsIndex-add, IsIndex-remove}

abbrev Listed : DiscoveryState → Type 0
Listed d = IsIndex d.open_ambiguities d.ambiguity_order

abbrev Lists : Exec DiscoveryState (Unit {0}) → Type 0
Lists m = (d : DiscoveryState) → Listed d → Ends (λ _. Unit {0}) (λ _ s. Listed s) (m d)

pub on_discovery-Keeps : (m : Exec DiscoveryState (Unit {0})) → Lists m → Keeps (on_discovery m)
unfolding on_discovery
on_discovery-Keeps m k p h = record {
  on_ok = λ a e. record {
    tasks = h.tasks;
    risks = h.risks;
    decisions = h.decisions;
    components = h.components;
    ambiguities = (k p.discovery h.ambiguities).on_ok a e;
  };
  on_err = λ c e. tt;
}

pub problem_model_revised-Lists : (q : ProblemModelRevised) → Lists (apply_problem_model_revised q)
unfolding apply_problem_model_revised
problem_model_revised-Lists q d h = ask_rule _ _ (check_rule _ _ _ _ tt λ _. modify-Ends _ _ h)

pub ambiguity_opened-Lists : (q : AmbiguityOpened) → Lists (apply_ambiguity_opened q)
unfolding apply_ambiguity_opened
ambiguity_opened-Lists q d h =
    ask_rule _ _ (check_rule _ _ _ _ tt λ new. modify-Ends _ _ (IsIndex-add h q.ambiguity_id _ new))

pub ambiguity_resolved-Lists : (q : AmbiguityResolved) → Lists (apply_ambiguity_resolved q)
unfolding apply_ambiguity_resolved
ambiguity_resolved-Lists q d h =
    ask_rule _ _ (check_rule _ _ _ _ tt λ _. modify-Ends _ _ (IsIndex-remove h q.ambiguity_id))

if-Listed : (b : Bool) (c d : DiscoveryState) → Listed c → Listed d → Listed (if b then c else d)
if-Listed true c d h k = h
if-Listed false c d h k = k

pub product_decision_recorded-Lists :
    (q : ProductDecisionRecorded) → Lists (apply_product_decision_recorded q)
unfolding apply_product_decision_recorded
product_decision_recorded-Lists q d h = ask_rule _ _ (
    check_rule _ _ _ _ tt λ _. check_rule _ _ _ _ tt λ _. modify_rule _ _ _ (
      modify_rule _ _ _ (
        modify-Ends _ _ (
          let closed =
            if-Listed (q.resolves_ambiguity == "") _ _ h (IsIndex-remove h q.resolves_ambiguity) in
          if-Listed (q.supersedes == "") _ _ closed closed))))

pub requirement_recorded-Lists : (q : RequirementRecorded) → Lists (apply_requirement_recorded q)
unfolding apply_requirement_recorded
requirement_recorded-Lists q d h = ask_rule _ _ (lift_rule _ _ _ tt λ _ _. modify-Ends _ _ h)

pub readiness_recorded-Lists :
    (q : SpecificationReadinessRecorded) → Lists (apply_readiness_recorded q)
unfolding apply_readiness_recorded
readiness_recorded-Lists q d h =
    ask_rule _ _ (check_rule _ _ _ _ tt λ _. check_rule _ _ _ _ tt λ _. modify-Ends _ _ h)

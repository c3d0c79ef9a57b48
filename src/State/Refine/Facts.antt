-- ===== src/State/Refine/Facts.antt =====
-- The events about the project and about discovery (internal/state), beside the abstract machine.
use dev_cadence.Prelude.{◌≡◌, refl, ap, arith}
use dev_cadence.State.Exec.{Exec, Ends, ask_rule, lift_rule, check_rule, modify_rule, modify-Ends}
use dev_cadence.Events.Envelope.{Event}
use dev_cadence.Events.Project.{
  ProjectInitialized, MilestoneStarted, ComponentDeclared, DecisionRequiredRaised, DecisionRecorded,
  RiskRecorded, RiskResolved, HealthReportRecorded, ModuleCatalogRecorded,
}
use dev_cadence.Events.Discovery.{
  ProblemModelRevised, AmbiguityOpened, AmbiguityResolved, ProductDecisionRecorded,
  RequirementRecorded, SpecificationReadinessRecorded,
}
use dev_cadence.State.Discovery.{
  DiscoveryState, apply_problem_model_revised, apply_ambiguity_opened, apply_ambiguity_resolved,
  apply_product_decision_recorded, apply_requirement_recorded, apply_readiness_recorded,
}
use dev_cadence.State.Projection.{Projection}
use dev_cadence.State.Facts.{
  apply_project_initialized, apply_milestone_started, apply_component_declared,
  apply_decision_required, apply_decision_recorded, apply_risk_recorded, apply_risk_resolved,
  apply_health_report_recorded, apply_module_catalog_recorded,
}
use dev_cadence.State.Apply.{on_discovery}
use dev_cadence.State.Refine.{Refines, still}

module _ (p : Projection) where
  pub project_initialized-Refines :
      (e : Event) (q : ProjectInitialized) → Refines p (apply_project_initialized e q)
  unfolding apply_project_initialized
  project_initialized-Refines e q = modify-Ends _ _ (still refl)

  pub milestone_started-Refines : (q : MilestoneStarted) → Refines p (apply_milestone_started q)
  unfolding apply_milestone_started
  milestone_started-Refines q = modify-Ends _ _ (still refl)

  pub component_declared-Refines : (q : ComponentDeclared) → Refines p (apply_component_declared q)
  unfolding apply_component_declared
  component_declared-Refines q = modify-Ends _ _ (still refl)

  pub decision_required-Refines :
      (q : DecisionRequiredRaised) → Refines p (apply_decision_required q)
  unfolding apply_decision_required
  decision_required-Refines q =
      ask_rule _ _ (check_rule _ _ _ _ refl λ _. modify-Ends _ _ (still refl))

  pub decision_recorded-Refines : (q : DecisionRecorded) → Refines p (apply_decision_recorded q)
  unfolding apply_decision_recorded
  decision_recorded-Refines q = ask_rule _ _ (
      check_rule _ _ _ _ refl λ _.
        check_rule _ _ _ _ refl λ _. modify_rule _ _ _ (modify-Ends _ _ (still (ground arith))))

  pub risk_recorded-Refines : (q : RiskRecorded) → Refines p (apply_risk_recorded q)
  unfolding apply_risk_recorded
  risk_recorded-Refines q = ask_rule _ _ (check_rule _ _ _ _ refl λ _. modify-Ends _ _ (still refl))

  pub risk_resolved-Refines : (q : RiskResolved) → Refines p (apply_risk_resolved q)
  unfolding apply_risk_resolved
  risk_resolved-Refines q = ask_rule _ _ (check_rule _ _ _ _ refl λ _. modify-Ends _ _ (still refl))

  pub health_report_recorded-Refines :
      (q : HealthReportRecorded) → Refines p (apply_health_report_recorded q)
  unfolding apply_health_report_recorded
  health_report_recorded-Refines q = modify-Ends _ _ (still refl)

  pub module_catalog_recorded-Refines :
      (q : ModuleCatalogRecorded) → Refines p (apply_module_catalog_recorded q)
  unfolding apply_module_catalog_recorded
  module_catalog_recorded-Refines q = modify-Ends _ _ (still refl)

-- A method that leaves its state alone when it fails.
abbrev IsAtomic : Exec DiscoveryState (Unit {0}) → DiscoveryState → Type 0
IsAtomic m d = Ends (λ s. s ≡ d) (λ _ _. Unit {0}) (m d)

pub on_discovery-Refines :
    (p : Projection) (m : Exec DiscoveryState (Unit {0}))
    → IsAtomic m p.discovery
    → Refines p (on_discovery m)
unfolding on_discovery
on_discovery-Refines p m h = record {
  on_ok = λ a ok. still refl;
  on_err = λ c err. ap (λ d. record p { discovery = d }) (h.on_err c err);
}

module _ (d : DiscoveryState) where
  pub problem_model_revised-IsAtomic :
      (q : ProblemModelRevised) → IsAtomic (apply_problem_model_revised q) d
  unfolding apply_problem_model_revised
  problem_model_revised-IsAtomic q = ask_rule _ _ (check_rule _ _ _ _ refl λ _. modify-Ends _ _ tt)

  pub ambiguity_opened-IsAtomic : (q : AmbiguityOpened) → IsAtomic (apply_ambiguity_opened q) d
  unfolding apply_ambiguity_opened
  ambiguity_opened-IsAtomic q = ask_rule _ _ (check_rule _ _ _ _ refl λ _. modify-Ends _ _ tt)

  pub ambiguity_resolved-IsAtomic :
      (q : AmbiguityResolved) → IsAtomic (apply_ambiguity_resolved q) d
  unfolding apply_ambiguity_resolved
  ambiguity_resolved-IsAtomic q = ask_rule _ _ (check_rule _ _ _ _ refl λ _. modify-Ends _ _ tt)

  pub product_decision_recorded-IsAtomic :
      (q : ProductDecisionRecorded) → IsAtomic (apply_product_decision_recorded q) d
  unfolding apply_product_decision_recorded
  product_decision_recorded-IsAtomic q = ask_rule _ _ (
      check_rule _ _ _ _ refl λ _.
        check_rule _ _ _ _ refl λ _. modify_rule _ _ _ (modify_rule _ _ _ (modify-Ends _ _ tt)))

  pub requirement_recorded-IsAtomic :
      (q : RequirementRecorded) → IsAtomic (apply_requirement_recorded q) d
  unfolding apply_requirement_recorded
  requirement_recorded-IsAtomic q = ask_rule _ _ (lift_rule _ _ _ refl λ _ _. modify-Ends _ _ tt)

  pub readiness_recorded-IsAtomic :
      (q : SpecificationReadinessRecorded) → IsAtomic (apply_readiness_recorded q) d
  unfolding apply_readiness_recorded
  readiness_recorded-IsAtomic q =
      ask_rule _ _ (check_rule _ _ _ _ refl λ _. check_rule _ _ _ _ refl λ _. modify-Ends _ _ tt)

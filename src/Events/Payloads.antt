-- ===== src/Events/Payloads.antt =====
-- internal/events: the payloads, their types and checks, and the registered types (registry.go).
pub mod Registry
use dev_cadence.Prelude.{String, Bool, List, [], ◌∷◌, contains}
use dev_cadence.Errs.{Result}
use dev_cadence.Events.Project.{
  ProjectInitialized, project_initialized_validate, MilestoneStarted, milestone_started_validate,
  ComponentDeclared, component_declared_validate, DesignCandidateCreated,
  design_candidate_created_validate, DecisionRequiredRaised, decision_required_raised_validate,
  DecisionRecorded, decision_recorded_validate, RiskRecorded, risk_recorded_validate, RiskResolved,
  risk_resolved_validate, HealthReportRecorded, health_report_recorded_validate,
  ModuleCatalogRecorded, module_catalog_recorded_validate,
}
use dev_cadence.Events.Discovery.{
  RequirementRecorded, requirement_recorded_validate, ProblemModelRevised,
  problem_model_revised_validate, AmbiguityOpened, ambiguity_opened_validate, AmbiguityResolved,
  ambiguity_resolved_validate, ProductDecisionRecorded, product_decision_recorded_validate,
  DiscoveryExperimentStarted, discovery_experiment_started_validate, DiscoveryExperimentCompleted,
  discovery_experiment_completed_validate, SpecificationReviewCompleted,
  specification_review_completed_validate, SpecificationReadinessRecorded,
  specification_readiness_recorded_validate,
}
use dev_cadence.Events.Planning.{
  TaskCreated, task_created_validate, TaskScoutingStarted, task_scouting_started_validate,
  TaskDesignStarted, task_design_started_validate, WorkPackageProposed,
  work_package_proposed_validate, WorkPackageApproved, work_package_approved_validate,
  TaskDelegated, task_delegated_validate,
}
use dev_cadence.Events.Execution.{
  AttemptStarted, attempt_started_validate, CandidateProduced, candidate_produced_validate,
  AttemptBlocked, attempt_blocked_validate, AttemptFailed, attempt_failed_validate,
}
use dev_cadence.Events.Evidence.{
  ValidationCompleted, validation_completed_validate, ReviewInvocationStarted,
  review_invocation_started_validate, ReviewCompleted, review_completed_validate,
}
use dev_cadence.Events.Decision.{
  ChangeAccepted, change_accepted_validate, ChangeRejected, change_rejected_validate,
  EscalationRaised, escalation_raised_validate, IntegrationStarted, integration_started_validate,
  IntegrationValidationStarted, integration_validation_started_validate,
}
use dev_cadence.Events.Future.{
  LessonCandidateCreated, lesson_candidate_created_validate, LessonPromoted,
  lesson_promoted_validate, RefactoringEpochStarted, refactoring_epoch_started_validate,
  ArchitectureReconciled, architecture_reconciled_validate,
}

pub data Payload : Type 0 where
  project_initialized : ProjectInitialized → Payload
  milestone_started : MilestoneStarted → Payload
  component_declared : ComponentDeclared → Payload
  design_candidate_created : DesignCandidateCreated → Payload
  decision_required_raised : DecisionRequiredRaised → Payload
  decision_recorded : DecisionRecorded → Payload
  risk_recorded : RiskRecorded → Payload
  risk_resolved : RiskResolved → Payload
  health_report_recorded : HealthReportRecorded → Payload
  module_catalog_recorded : ModuleCatalogRecorded → Payload
  requirement_recorded : RequirementRecorded → Payload
  problem_model_revised : ProblemModelRevised → Payload
  ambiguity_opened : AmbiguityOpened → Payload
  ambiguity_resolved : AmbiguityResolved → Payload
  product_decision_recorded : ProductDecisionRecorded → Payload
  discovery_experiment_started : DiscoveryExperimentStarted → Payload
  discovery_experiment_completed : DiscoveryExperimentCompleted → Payload
  specification_review_completed : SpecificationReviewCompleted → Payload
  specification_readiness_recorded : SpecificationReadinessRecorded → Payload
  task_created : TaskCreated → Payload
  task_scouting_started : TaskScoutingStarted → Payload
  task_design_started : TaskDesignStarted → Payload
  work_package_proposed : WorkPackageProposed → Payload
  work_package_approved : WorkPackageApproved → Payload
  task_delegated : TaskDelegated → Payload
  attempt_started : AttemptStarted → Payload
  candidate_produced : CandidateProduced → Payload
  attempt_blocked : AttemptBlocked → Payload
  attempt_failed : AttemptFailed → Payload
  validation_completed : ValidationCompleted → Payload
  review_invocation_started : ReviewInvocationStarted → Payload
  review_completed : ReviewCompleted → Payload
  change_accepted : ChangeAccepted → Payload
  change_rejected : ChangeRejected → Payload
  escalation_raised : EscalationRaised → Payload
  integration_started : IntegrationStarted → Payload
  integration_validation_started : IntegrationValidationStarted → Payload
  lesson_candidate_created : LessonCandidateCreated → Payload
  lesson_promoted : LessonPromoted → Payload
  refactoring_epoch_started : RefactoringEpochStarted → Payload
  architecture_reconciled : ArchitectureReconciled → Payload

unfoldable pub payload_type : Payload → String
payload_type (project_initialized p) = "ProjectInitialized"
payload_type (milestone_started p) = "MilestoneStarted"
payload_type (component_declared p) = "ComponentDeclared"
payload_type (design_candidate_created p) = "DesignCandidateCreated"
payload_type (decision_required_raised p) = "DecisionRequired"
payload_type (decision_recorded p) = "DecisionRecorded"
payload_type (risk_recorded p) = "RiskRecorded"
payload_type (risk_resolved p) = "RiskResolved"
payload_type (health_report_recorded p) = "HealthReportRecorded"
payload_type (module_catalog_recorded p) = "ModuleCatalogRecorded"
payload_type (requirement_recorded p) = "RequirementRecorded"
payload_type (problem_model_revised p) = "ProblemModelRevised"
payload_type (ambiguity_opened p) = "AmbiguityOpened"
payload_type (ambiguity_resolved p) = "AmbiguityResolved"
payload_type (product_decision_recorded p) = "ProductDecisionRecorded"
payload_type (discovery_experiment_started p) = "DiscoveryExperimentStarted"
payload_type (discovery_experiment_completed p) = "DiscoveryExperimentCompleted"
payload_type (specification_review_completed p) = "SpecificationReviewCompleted"
payload_type (specification_readiness_recorded p) = "SpecificationReadinessRecorded"
payload_type (task_created p) = "TaskCreated"
payload_type (task_scouting_started p) = "TaskScoutingStarted"
payload_type (task_design_started p) = "TaskDesignStarted"
payload_type (work_package_proposed p) = "WorkPackageProposed"
payload_type (work_package_approved p) = "WorkPackageApproved"
payload_type (task_delegated p) = "TaskDelegated"
payload_type (attempt_started p) = "AttemptStarted"
payload_type (candidate_produced p) = "CandidateProduced"
payload_type (attempt_blocked p) = "AttemptBlocked"
payload_type (attempt_failed p) = "AttemptFailed"
payload_type (validation_completed p) = "ValidationCompleted"
payload_type (review_invocation_started p) = "ReviewInvocationStarted"
payload_type (review_completed p) = "ReviewCompleted"
payload_type (change_accepted p) = "ChangeAccepted"
payload_type (change_rejected p) = "ChangeRejected"
payload_type (escalation_raised p) = "EscalationRaised"
payload_type (integration_started p) = "IntegrationStarted"
payload_type (integration_validation_started p) = "IntegrationValidationStarted"
payload_type (lesson_candidate_created p) = "LessonCandidateCreated"
payload_type (lesson_promoted p) = "LessonPromoted"
payload_type (refactoring_epoch_started p) = "RefactoringEpochStarted"
payload_type (architecture_reconciled p) = "ArchitectureReconciled"

unfoldable pub payload_validate : Payload → Result (Unit {0})
unfolding project_initialized_validate milestone_started_validate component_declared_validate
    design_candidate_created_validate decision_required_raised_validate decision_recorded_validate
    risk_recorded_validate risk_resolved_validate health_report_recorded_validate
    module_catalog_recorded_validate requirement_recorded_validate problem_model_revised_validate
    ambiguity_opened_validate ambiguity_resolved_validate product_decision_recorded_validate
    discovery_experiment_started_validate discovery_experiment_completed_validate
    specification_review_completed_validate specification_readiness_recorded_validate
    task_created_validate task_scouting_started_validate task_design_started_validate
    work_package_proposed_validate work_package_approved_validate task_delegated_validate
    attempt_started_validate candidate_produced_validate attempt_blocked_validate
    attempt_failed_validate validation_completed_validate review_invocation_started_validate
    review_completed_validate change_accepted_validate change_rejected_validate
    escalation_raised_validate integration_started_validate integration_validation_started_validate
    lesson_candidate_created_validate lesson_promoted_validate refactoring_epoch_started_validate
    architecture_reconciled_validate
payload_validate (project_initialized p) = project_initialized_validate p
payload_validate (milestone_started p) = milestone_started_validate p
payload_validate (component_declared p) = component_declared_validate p
payload_validate (design_candidate_created p) = design_candidate_created_validate p
payload_validate (decision_required_raised p) = decision_required_raised_validate p
payload_validate (decision_recorded p) = decision_recorded_validate p
payload_validate (risk_recorded p) = risk_recorded_validate p
payload_validate (risk_resolved p) = risk_resolved_validate p
payload_validate (health_report_recorded p) = health_report_recorded_validate p
payload_validate (module_catalog_recorded p) = module_catalog_recorded_validate p
payload_validate (requirement_recorded p) = requirement_recorded_validate p
payload_validate (problem_model_revised p) = problem_model_revised_validate p
payload_validate (ambiguity_opened p) = ambiguity_opened_validate p
payload_validate (ambiguity_resolved p) = ambiguity_resolved_validate p
payload_validate (product_decision_recorded p) = product_decision_recorded_validate p
payload_validate (discovery_experiment_started p) = discovery_experiment_started_validate p
payload_validate (discovery_experiment_completed p) = discovery_experiment_completed_validate p
payload_validate (specification_review_completed p) = specification_review_completed_validate p
payload_validate (specification_readiness_recorded p) = specification_readiness_recorded_validate p
payload_validate (task_created p) = task_created_validate p
payload_validate (task_scouting_started p) = task_scouting_started_validate p
payload_validate (task_design_started p) = task_design_started_validate p
payload_validate (work_package_proposed p) = work_package_proposed_validate p
payload_validate (work_package_approved p) = work_package_approved_validate p
payload_validate (task_delegated p) = task_delegated_validate p
payload_validate (attempt_started p) = attempt_started_validate p
payload_validate (candidate_produced p) = candidate_produced_validate p
payload_validate (attempt_blocked p) = attempt_blocked_validate p
payload_validate (attempt_failed p) = attempt_failed_validate p
payload_validate (validation_completed p) = validation_completed_validate p
payload_validate (review_invocation_started p) = review_invocation_started_validate p
payload_validate (review_completed p) = review_completed_validate p
payload_validate (change_accepted p) = change_accepted_validate p
payload_validate (change_rejected p) = change_rejected_validate p
payload_validate (escalation_raised p) = escalation_raised_validate p
payload_validate (integration_started p) = integration_started_validate p
payload_validate (integration_validation_started p) = integration_validation_started_validate p
payload_validate (lesson_candidate_created p) = lesson_candidate_created_validate p
payload_validate (lesson_promoted p) = lesson_promoted_validate p
payload_validate (refactoring_epoch_started p) = refactoring_epoch_started_validate p
payload_validate (architecture_reconciled p) = architecture_reconciled_validate p

-- The registry after the `init` functions of the package have run.
unfoldable pub registered_types : List String
registered_types =
    "ProjectInitialized" ∷ "MilestoneStarted" ∷ "ComponentDeclared" ∷ "DesignCandidateCreated"
    ∷ "DecisionRequired" ∷ "DecisionRecorded" ∷ "RiskRecorded" ∷ "RiskResolved"
    ∷ "HealthReportRecorded" ∷ "ModuleCatalogRecorded" ∷ "RequirementRecorded"
    ∷ "ProblemModelRevised" ∷ "AmbiguityOpened" ∷ "AmbiguityResolved" ∷ "ProductDecisionRecorded"
    ∷ "DiscoveryExperimentStarted" ∷ "DiscoveryExperimentCompleted" ∷ "SpecificationReviewCompleted"
    ∷ "SpecificationReadinessRecorded" ∷ "TaskCreated" ∷ "TaskScoutingStarted" ∷ "TaskDesignStarted"
    ∷ "WorkPackageProposed" ∷ "WorkPackageApproved" ∷ "TaskDelegated" ∷ "AttemptStarted"
    ∷ "CandidateProduced" ∷ "AttemptBlocked" ∷ "AttemptFailed" ∷ "ValidationCompleted"
    ∷ "ReviewInvocationStarted" ∷ "ReviewCompleted" ∷ "ChangeAccepted" ∷ "ChangeRejected"
    ∷ "EscalationRaised" ∷ "IntegrationStarted" ∷ "IntegrationValidationStarted"
    ∷ "LessonCandidateCreated" ∷ "LessonPromoted" ∷ "RefactoringEpochStarted"
    ∷ "ArchitectureReconciled" ∷ []

unfoldable pub registered : String → Bool
unfolding registered_types
registered t = contains registered_types t

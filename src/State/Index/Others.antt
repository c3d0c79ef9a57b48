-- ===== src/State/Index/Others.antt =====
-- The handlers of internal/state/reduce.go that do not write to a map with an ordered id list, or only
-- move a task.
use dev_cadence.Prelude.{refl}
use dev_cadence.Errs.{ok}
use dev_cadence.Tasks.State.{State}
use dev_cadence.Events.Envelope.{Event}
use dev_cadence.Events.Project.{
  ProjectInitialized, MilestoneStarted, HealthReportRecorded, ModuleCatalogRecorded,
}
use dev_cadence.Events.Planning.{WorkPackageProposed, WorkPackageApproved, TaskDelegated}
use dev_cadence.Events.Execution.{CandidateProduced, AttemptBlocked, AttemptFailed}
use dev_cadence.Events.Evidence.{ReviewCompleted, ValidationCompleted}
use dev_cadence.Events.Decision.{ChangeAccepted, ChangeRejected, EscalationRaised}
use dev_cadence.State.Exec.{ask_rule, bind_rule, lift_rule, check_rule, modify_rule, modify-Ends}
use dev_cadence.State.Facts.{
  apply_project_initialized, apply_milestone_started, apply_health_report_recorded,
  apply_module_catalog_recorded,
}
use dev_cadence.State.Delivery.{
  apply_work_package_proposed, apply_work_package_approved, apply_task_delegated,
}
use dev_cadence.State.Attempts.{
  apply_candidate_produced, apply_attempt_blocked, apply_attempt_failed,
}
use dev_cadence.State.Evidence.{
  apply_attempt_validation, apply_integration_validation, apply_baseline_validation,
  apply_review_completed, apply_change_accepted, apply_change_rejected, apply_escalation_raised,
}
use dev_cadence.State.Index.{
  Keeps, keeping, unchanged, if-Keeps, pure-Keeps, bind-Keeps, modify-Keeps,
}
use dev_cadence.State.Index.Handlers.{transition_task-Keeps, finish_attempt-Keeps}

module _ (e : Event) where
  pub project_initialized-Keeps : (q : ProjectInitialized) → Keeps (apply_project_initialized e q)
  unfolding apply_project_initialized
  project_initialized-Keeps q = search (keeping) depth 24

  pub milestone_started-Keeps : (q : MilestoneStarted) → Keeps (apply_milestone_started q)
  unfolding apply_milestone_started
  milestone_started-Keeps q = search (keeping) depth 24

  pub health_report_recorded-Keeps :
      (q : HealthReportRecorded) → Keeps (apply_health_report_recorded q)
  unfolding apply_health_report_recorded
  health_report_recorded-Keeps q = search (keeping) depth 24

  pub module_catalog_recorded-Keeps :
      (q : ModuleCatalogRecorded) → Keeps (apply_module_catalog_recorded q)
  unfolding apply_module_catalog_recorded
  module_catalog_recorded-Keeps q = search (keeping) depth 24

  pub work_package_proposed-Keeps :
      (q : WorkPackageProposed) → Keeps (apply_work_package_proposed q)
  unfolding apply_work_package_proposed
  work_package_proposed-Keeps q = search (keeping) depth 24

  pub work_package_approved-Keeps :
      (q : WorkPackageApproved) → Keeps (apply_work_package_approved e q)
  unfolding apply_work_package_approved
  work_package_approved-Keeps q = search (keeping, transition_task-Keeps) depth 24

  pub task_delegated-Keeps : (q : TaskDelegated) → Keeps (apply_task_delegated e q)
  unfolding apply_task_delegated
  task_delegated-Keeps q = search (keeping, transition_task-Keeps) depth 24

  pub candidate_produced-Keeps : (q : CandidateProduced) → Keeps (apply_candidate_produced e q)
  unfolding apply_candidate_produced
  candidate_produced-Keeps q =
      search (keeping, transition_task-Keeps, finish_attempt-Keeps) depth 24

  pub attempt_blocked-Keeps : (q : AttemptBlocked) → Keeps (apply_attempt_blocked e q)
  unfolding apply_attempt_blocked
  attempt_blocked-Keeps q = search (keeping, finish_attempt-Keeps) depth 24

  pub attempt_failed-Keeps : (q : AttemptFailed) → Keeps (apply_attempt_failed e q)
  unfolding apply_attempt_failed
  attempt_failed-Keeps q = search (keeping, finish_attempt-Keeps) depth 24

  pub review_completed-Keeps : (q : ReviewCompleted) → Keeps (apply_review_completed q)
  unfolding apply_review_completed
  review_completed-Keeps q = search (keeping) depth 24

  pub change_accepted-Keeps : (q : ChangeAccepted) → Keeps (apply_change_accepted e q)
  unfolding apply_change_accepted
  change_accepted-Keeps q p h = ask_rule _ _ (
      lift_rule _ _ _ tt λ _ _. lift_rule _ _ _ tt λ _ _. lift_rule _ _ _ tt λ _ _.
        lift_rule _ _ _ tt λ _ _. check_rule _ _ _ _ tt λ _. check_rule _ _ _ _ tt λ _.
          lift_rule _ _ _ tt λ _ _. lift_rule _ _ _ tt λ _ _.
            bind_rule _ _ _ (transition_task-Keeps e q.task_id State.accepted _ p h) λ _ t i.
              modify-Ends _ _ (unchanged t _ i refl refl refl refl refl refl refl refl refl))

  pub change_rejected-Keeps : (q : ChangeRejected) → Keeps (apply_change_rejected e q)
  unfolding apply_change_rejected
  change_rejected-Keeps q = search (keeping, transition_task-Keeps) depth 24

  pub escalation_raised-Keeps : (q : EscalationRaised) → Keeps (apply_escalation_raised e q)
  unfolding apply_escalation_raised
  escalation_raised-Keeps q = search (keeping, transition_task-Keeps) depth 24

  pub attempt_validation-Keeps : (q : ValidationCompleted) → Keeps (apply_attempt_validation e q)
  unfolding apply_attempt_validation
  attempt_validation-Keeps q p h = ask_rule _ _ (
      lift_rule _ _ _ tt λ _ _. lift_rule _ _ _ tt λ _ _. lift_rule _ _ _ tt λ _ _.
        lift_rule _ _ _ tt λ _ _. lift_rule _ _ _ tt λ m _. modify_rule _ _ _ (
          transition_task-Keeps e q.task_id _ ok _ (
            unchanged p (record p { validations = m }) h refl refl refl refl refl refl refl refl
              refl)))

  pub integration_validation-Keeps :
      (q : ValidationCompleted) → Keeps (apply_integration_validation e q)
  unfolding apply_integration_validation
  integration_validation-Keeps q p h = ask_rule _ _ (
      lift_rule _ _ _ tt λ _ _. lift_rule _ _ _ tt λ m _. modify_rule _ _ _ (
        if-Keeps _ _ _ (pure-Keeps tt)
          (bind-Keeps _ _ (transition_task-Keeps e q.task_id State.done ok)
            λ _. modify-Keeps _ λ s i. unchanged s _ i refl refl refl refl refl refl refl refl refl)
          (record p { validations = m })
          (unchanged p _ h refl refl refl refl refl refl refl refl refl)))

  pub baseline_validation-Keeps : (q : ValidationCompleted) → Keeps (apply_baseline_validation q)
  unfolding apply_baseline_validation
  baseline_validation-Keeps q = search (keeping) depth 24

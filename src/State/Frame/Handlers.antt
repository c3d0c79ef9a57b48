-- ===== src/State/Frame/Handlers.antt =====
-- The handlers of internal/state/reduce.go that do not touch the project's identity and accepted commit.
use dev_cadence.Prelude.{String, refl}
use dev_cadence.Errs.{Result}
use dev_cadence.Tasks.State.{State}
use dev_cadence.Tasks.Task.{Task}
use dev_cadence.Tasks.Attempt.{Attempt, AttemptStatus}
use dev_cadence.Events.Envelope.{Event}
use dev_cadence.Events.Project.{
  MilestoneStarted, ComponentDeclared, DecisionRequiredRaised, DecisionRecorded, RiskRecorded,
  RiskResolved, HealthReportRecorded, ModuleCatalogRecorded,
}
use dev_cadence.Events.Planning.{
  TaskCreated, WorkPackageProposed, WorkPackageApproved, TaskDelegated,
}
use dev_cadence.Events.Execution.{AttemptStarted, CandidateProduced, AttemptBlocked, AttemptFailed}
use dev_cadence.Events.Evidence.{ReviewCompleted, ValidationCompleted}
use dev_cadence.Events.Decision.{ChangeAccepted, ChangeRejected, EscalationRaised}
use dev_cadence.State.Exec.{Exec}
use dev_cadence.State.Discovery.{DiscoveryState}
use dev_cadence.State.Facts.{
  apply_milestone_started, apply_component_declared, apply_decision_required,
  apply_decision_recorded, apply_risk_recorded, apply_risk_resolved, apply_health_report_recorded,
  apply_module_catalog_recorded,
}
use dev_cadence.State.Delivery.{
  transition_task, apply_task_created, apply_work_package_proposed, apply_work_package_approved,
  apply_task_delegated,
}
use dev_cadence.State.Attempts.{
  finish_attempt, apply_attempt_started, apply_candidate_produced, apply_attempt_blocked,
  apply_attempt_failed,
}
use dev_cadence.State.Evidence.{
  apply_attempt_validation, apply_review_completed, apply_change_accepted, apply_change_rejected,
  apply_escalation_raised,
}
use dev_cadence.State.Apply.{on_discovery}
use dev_cadence.State.Frame.{Framed, framing}

pub on_discovery-Framed : (m : Exec DiscoveryState (Unit {0})) → Framed (on_discovery m)
unfolding on_discovery
on_discovery-Framed m p = record {
  on_ok = λ a e. record { project_id = refl; initialised = refl; accepted_commit = refl };
  on_err = λ c e. tt;
}

module _ (e : Event) where
  pub transition_task-Framed :
      (id : String) (to : State) (mutate : Task → Result Task)
      → Framed (transition_task e id to mutate)
  unfolding transition_task
  transition_task-Framed id to mutate = search (framing) depth 16

  finish_attempt-Framed :
      (task_id id : String) (to : AttemptStatus) (mutate : Attempt → Attempt)
      → Framed (finish_attempt e task_id id to mutate)
  unfolding finish_attempt
  finish_attempt-Framed task_id id to mutate = search (framing) depth 16

  pub milestone_started-Framed : (q : MilestoneStarted) → Framed (apply_milestone_started q)
  unfolding apply_milestone_started
  milestone_started-Framed q = search (framing) depth 20

  pub component_declared-Framed : (q : ComponentDeclared) → Framed (apply_component_declared q)
  unfolding apply_component_declared
  component_declared-Framed q = search (framing) depth 20

  pub decision_required-Framed : (q : DecisionRequiredRaised) → Framed (apply_decision_required q)
  unfolding apply_decision_required
  decision_required-Framed q = search (framing) depth 20

  pub decision_recorded-Framed : (q : DecisionRecorded) → Framed (apply_decision_recorded q)
  unfolding apply_decision_recorded
  decision_recorded-Framed q = search (framing) depth 20

  pub risk_recorded-Framed : (q : RiskRecorded) → Framed (apply_risk_recorded q)
  unfolding apply_risk_recorded
  risk_recorded-Framed q = search (framing) depth 20

  pub risk_resolved-Framed : (q : RiskResolved) → Framed (apply_risk_resolved q)
  unfolding apply_risk_resolved
  risk_resolved-Framed q = search (framing) depth 20

  pub health_report_recorded-Framed :
      (q : HealthReportRecorded) → Framed (apply_health_report_recorded q)
  unfolding apply_health_report_recorded
  health_report_recorded-Framed q = search (framing) depth 20

  pub module_catalog_recorded-Framed :
      (q : ModuleCatalogRecorded) → Framed (apply_module_catalog_recorded q)
  unfolding apply_module_catalog_recorded
  module_catalog_recorded-Framed q = search (framing) depth 20

  pub task_created-Framed : (q : TaskCreated) → Framed (apply_task_created e q)
  unfolding apply_task_created
  task_created-Framed q = search (framing) depth 20

  pub work_package_proposed-Framed :
      (q : WorkPackageProposed) → Framed (apply_work_package_proposed q)
  unfolding apply_work_package_proposed
  work_package_proposed-Framed q = search (framing) depth 20

  pub work_package_approved-Framed :
      (q : WorkPackageApproved) → Framed (apply_work_package_approved e q)
  unfolding apply_work_package_approved
  work_package_approved-Framed q = search (framing, transition_task-Framed) depth 20

  pub task_delegated-Framed : (q : TaskDelegated) → Framed (apply_task_delegated e q)
  unfolding apply_task_delegated
  task_delegated-Framed q = search (framing, transition_task-Framed) depth 20

  pub attempt_started-Framed : (q : AttemptStarted) → Framed (apply_attempt_started e q)
  unfolding apply_attempt_started
  attempt_started-Framed q = search (framing) depth 20

  pub candidate_produced-Framed : (q : CandidateProduced) → Framed (apply_candidate_produced e q)
  unfolding apply_candidate_produced
  candidate_produced-Framed q =
      search (framing, transition_task-Framed, finish_attempt-Framed) depth 20

  pub attempt_blocked-Framed : (q : AttemptBlocked) → Framed (apply_attempt_blocked e q)
  unfolding apply_attempt_blocked
  attempt_blocked-Framed q = search (framing, finish_attempt-Framed) depth 20

  pub attempt_failed-Framed : (q : AttemptFailed) → Framed (apply_attempt_failed e q)
  unfolding apply_attempt_failed
  attempt_failed-Framed q = search (framing, finish_attempt-Framed) depth 20

  pub review_completed-Framed : (q : ReviewCompleted) → Framed (apply_review_completed q)
  unfolding apply_review_completed
  review_completed-Framed q = search (framing) depth 20

  pub change_accepted-Framed : (q : ChangeAccepted) → Framed (apply_change_accepted e q)
  unfolding apply_change_accepted
  change_accepted-Framed q = search (framing, transition_task-Framed) depth 20

  pub change_rejected-Framed : (q : ChangeRejected) → Framed (apply_change_rejected e q)
  unfolding apply_change_rejected
  change_rejected-Framed q = search (framing, transition_task-Framed) depth 20

  pub escalation_raised-Framed : (q : EscalationRaised) → Framed (apply_escalation_raised e q)
  unfolding apply_escalation_raised
  escalation_raised-Framed q = search (framing, transition_task-Framed) depth 20

  pub attempt_validation-Framed : (q : ValidationCompleted) → Framed (apply_attempt_validation e q)
  unfolding apply_attempt_validation
  attempt_validation-Framed q = search (framing, transition_task-Framed) depth 20

-- ===== src/Events/Decision.antt =====
-- The events that decide about a candidate (internal/events/payloads_task.go): the payloads and their `Validate`.
use dev_cadence.Prelude.{String, ◌==◌, not, ◌||◌, List, is_empty}
use dev_cadence.Errs.{Result, refuse, ◌>>◌, invalid_argument}
use dev_cadence.Protocol.Delivery.{DecisionAuthority, decision_authority_valid}
use dev_cadence.Tasks.Task.{BlockedReason, reason_validate}
use dev_cadence.Events.Common.{require_task_id}

pub record ChangeAccepted : Type 0 where
  pub task_id : String
  pub attempt_id : String
  pub work_package_id : String
  pub candidate_commit : String
  pub semantic_summary : String
  pub validation_ids : List String
  pub review_ids : List String
  pub unresolved_disagreements : List String
  pub decided_by : DecisionAuthority

unfoldable pub change_accepted_validate : ChangeAccepted → Result (Unit {0})
change_accepted_validate p = do
  require_task_id p.task_id
  refuse ((p.attempt_id == "") || (p.candidate_commit == "") || (p.semantic_summary == ""))
      invalid_argument
  refuse ((p.work_package_id == "")) invalid_argument
  refuse (is_empty p.validation_ids) invalid_argument
  refuse (is_empty p.review_ids) invalid_argument
  refuse (not (decision_authority_valid p.decided_by)) invalid_argument

pub record ChangeRejected : Type 0 where
  pub task_id : String
  pub attempt_id : String
  pub reason : String
  pub requested_repairs : List String
  pub decided_by : DecisionAuthority

unfoldable pub change_rejected_validate : ChangeRejected → Result (Unit {0})
change_rejected_validate p = do
  require_task_id p.task_id
  refuse ((p.attempt_id == "") || (p.reason == "")) invalid_argument
  refuse (not (decision_authority_valid p.decided_by)) invalid_argument

pub record EscalationRaised : Type 0 where
  pub task_id : String
  pub escalation_id : String
  pub reason : BlockedReason
  pub options : List String
  pub tried : List String

unfoldable pub escalation_raised_validate : EscalationRaised → Result (Unit {0})
escalation_raised_validate p = do
  require_task_id p.task_id
  refuse ((p.escalation_id == "")) invalid_argument
  reason_validate p.reason

pub record IntegrationStarted : Type 0 where
  pub task_id : String
  pub integration_id : String
  pub base_commit : String

unfoldable pub integration_started_validate : IntegrationStarted → Result (Unit {0})
integration_started_validate p = do
  require_task_id p.task_id
  refuse ((p.integration_id == "")) invalid_argument

pub record IntegrationValidationStarted : Type 0 where
  pub task_id : String
  pub integration_id : String
  pub integrated_commit : String

unfoldable pub integration_validation_started_validate :
    IntegrationValidationStarted → Result (Unit {0})
integration_validation_started_validate p = do
  require_task_id p.task_id
  refuse ((p.integration_id == "")) invalid_argument

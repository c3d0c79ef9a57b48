-- ===== src/Events/Evidence.antt =====
-- The events that record evidence about a candidate (internal/events/payloads_task.go): the payloads and their `Validate`.
use dev_cadence.Prelude.{String, ◌==◌, Bool, true, false, not, ◌||◌, ◌&&◌, List, is_empty}
use dev_cadence.Errs.{Result, refuse, ◌>>◌, invalid_argument, integrity}
use dev_cadence.Protocol.Delivery.{
  ValidationScope, ValidationOutcome, ReviewDimension, ReviewVerdict, validation_scope_valid,
  validation_outcome_valid, review_dimension_valid, review_verdict_valid, attempt, baseline,
}
use dev_cadence.Events.Common.{require_task_id}

abbrev pub is_baseline : ValidationScope → Bool
is_baseline baseline = true
is_baseline _ = false

abbrev pub is_attempt : ValidationScope → Bool
is_attempt attempt = true
is_attempt _ = false

abbrev pub is_pass : ValidationOutcome → Bool
is_pass ValidationOutcome.pass = true
is_pass _ = false

pub record ValidationCompleted : Type 0 where
  pub task_id : String
  pub attempt_id : String
  pub validation_id : String
  pub scope : ValidationScope
  pub status : ValidationOutcome
  pub commit : String
  pub record_digest : String
  pub failed_checks : List String

unfoldable pub validation_completed_validate : ValidationCompleted → Result (Unit {0})
validation_completed_validate p = do
  refuse ((p.validation_id == "") || (p.record_digest == "")) invalid_argument
  refuse (not (validation_scope_valid p.scope)) invalid_argument
  refuse (not (validation_outcome_valid p.status)) invalid_argument
  refuse (not (is_baseline p.scope) && (p.task_id == "")) invalid_argument
  refuse (is_attempt p.scope && (p.attempt_id == "")) invalid_argument
  refuse (not (is_attempt p.scope) && not (p.attempt_id == "")) invalid_argument
  refuse (is_baseline p.scope && not (p.task_id == "")) invalid_argument
  refuse ((p.commit == "")) invalid_argument
  refuse (is_pass p.status && not (is_empty p.failed_checks)) integrity

pub record ReviewInvocationStarted : Type 0 where
  pub task_id : String
  pub attempt_id : String
  pub work_package_id : String
  pub review_id : String
  pub invocation_id : String
  pub dimension : ReviewDimension
  pub candidate_commit : String
  pub record_digest : String

unfoldable pub review_invocation_started_validate : ReviewInvocationStarted → Result (Unit {0})
review_invocation_started_validate p = do
  require_task_id p.task_id
  refuse
      ((p.attempt_id == "")
        || (p.review_id == "")
        || (p.invocation_id == "")
        || (p.record_digest == ""))
      invalid_argument
  refuse ((p.work_package_id == "")) invalid_argument
  refuse ((p.candidate_commit == "")) invalid_argument
  refuse (not (review_dimension_valid p.dimension)) invalid_argument

pub record ReviewCompleted : Type 0 where
  pub task_id : String
  pub attempt_id : String
  pub review_id : String
  pub work_package_id : String
  pub dimension : ReviewDimension
  pub verdict : ReviewVerdict
  pub record_digest : String
  pub principal_escalation_recommended : Bool

unfoldable pub review_completed_validate : ReviewCompleted → Result (Unit {0})
review_completed_validate p = do
  require_task_id p.task_id
  refuse ((p.attempt_id == "") || (p.review_id == "") || (p.record_digest == "")) invalid_argument
  refuse ((p.work_package_id == "")) invalid_argument
  refuse (not (review_dimension_valid p.dimension)) invalid_argument
  refuse (not (review_verdict_valid p.verdict)) invalid_argument

-- ===== src/Events/Execution.antt =====
-- The events of an attempt (internal/events/payloads_task.go): the payloads and their `Validate`.
use dev_cadence.Prelude.{String, ◌==◌, Bool, ◌||◌, ℤ, pos, lt_ℤ, List}
use dev_cadence.Errs.{Result, refuse, ◌>>◌, invalid_argument}
use dev_cadence.Protocol.Records.{ArtifactRef, artifacts_validate}
use dev_cadence.Tasks.Task.{BlockedReason, reason_validate}
use dev_cadence.Events.Common.{require_task_id}

pub record AttemptStarted : Type 0 where
  pub task_id : String
  pub attempt_id : String
  pub work_package_id : String
  pub work_package_version : ℤ
  pub project_state_revision : String
  pub base_commit : String
  pub worker_role : String
  pub worker_profile : String
  pub model_identity : String
  pub worktree_id : String

unfoldable pub attempt_started_validate : AttemptStarted → Result (Unit {0})
attempt_started_validate p = do
  require_task_id p.task_id
  refuse ((p.attempt_id == "") || (p.work_package_id == "") || (p.worker_role == ""))
      invalid_argument
  refuse (lt_ℤ p.work_package_version (pos 1)) invalid_argument
  refuse ((p.project_state_revision == "")) invalid_argument

pub record CandidateProduced : Type 0 where
  pub task_id : String
  pub attempt_id : String
  pub candidate_commit : String
  pub summary : String
  pub repair_iterations : ℤ
  pub artifacts : List ArtifactRef

unfoldable pub candidate_produced_validate : CandidateProduced → Result (Unit {0})
candidate_produced_validate p = do
  require_task_id p.task_id
  refuse ((p.attempt_id == "") || (p.candidate_commit == "")) invalid_argument
  refuse (lt_ℤ p.repair_iterations (pos 0)) invalid_argument
  artifacts_validate p.artifacts

pub record AttemptBlocked : Type 0 where
  pub task_id : String
  pub attempt_id : String
  pub reason : BlockedReason

unfoldable pub attempt_blocked_validate : AttemptBlocked → Result (Unit {0})
attempt_blocked_validate p = do
  require_task_id p.task_id
  refuse ((p.attempt_id == "")) invalid_argument
  reason_validate p.reason

pub record AttemptFailed : Type 0 where
  pub task_id : String
  pub attempt_id : String
  pub summary : String
  pub cancelled : Bool
  pub repair_iterations : ℤ
  pub artifacts : List ArtifactRef

unfoldable pub attempt_failed_validate : AttemptFailed → Result (Unit {0})
attempt_failed_validate p = do
  require_task_id p.task_id
  refuse ((p.attempt_id == "") || (p.summary == "")) invalid_argument

-- ===== src/Tasks/Attempt.antt =====
-- internal/tasks/attempt.go: the attempt, one execution unit under a task.
pub mod Course
use dev_cadence.Prelude.{
  ℤ, pos, lt_ℤ, ltb, String, ◌==◌, Bool, true, false, not, xor, ◌&&◌, Option, none, some, is_some,
  List, [], ◌∷◌, if◌then◌else◌,
}
use dev_cadence.Errs.{Result, refuse, ◌>>◌, integrity, invalid_argument, invalid_transition}
use dev_cadence.Protocol.Records.{Timestamp, ArtifactRef, artifacts_validate}
use dev_cadence.Tasks.Task.{BlockedReason, reason_validate?}

pub data AttemptStatus : Type 0 where
  running candidate_produced blocked failed cancelled : AttemptStatus
  unknown : String → AttemptStatus

unfoldable pub attempt_status_valid : AttemptStatus → Bool
attempt_status_valid (unknown s) = false
attempt_status_valid _ = true

unfoldable pub attempt_status_eq : AttemptStatus → AttemptStatus → Bool
attempt_status_eq running running = true
attempt_status_eq candidate_produced candidate_produced = true
attempt_status_eq blocked blocked = true
attempt_status_eq failed failed = true
attempt_status_eq cancelled cancelled = true
attempt_status_eq (unknown s) (unknown t) = s == t
attempt_status_eq _ _ = false

unfoldable pub attempt_terminal : AttemptStatus → Bool
unfolding attempt_status_valid attempt_status_eq
attempt_terminal s = attempt_status_valid s && not (attempt_status_eq s running)

unfoldable pub attempt_transitions : AttemptStatus → List AttemptStatus
attempt_transitions running = candidate_produced ∷ blocked ∷ failed ∷ cancelled ∷ []
attempt_transitions _ = []

unfoldable pub attempt_status_mem : List AttemptStatus → AttemptStatus → Bool
unfolding attempt_status_eq
attempt_status_mem [] s = false
attempt_status_mem (x ∷ xs) s =
    let rest = attempt_status_mem xs s in if attempt_status_eq x s then true else rest

unfoldable pub check_attempt_transition : AttemptStatus → AttemptStatus → Result (Unit {0})
unfolding attempt_status_valid attempt_status_mem attempt_transitions
check_attempt_transition from to = do
  refuse (not (attempt_status_valid from)) integrity
  refuse (not (attempt_status_valid to)) invalid_argument
  refuse (not (attempt_status_mem (attempt_transitions from) to)) invalid_transition

pub record Attempt : Type 0 where
  pub id : String
  pub project_id : String
  pub task_id : String
  pub ordinal : ℤ
  pub work_package_id : String
  pub work_package_version : ℤ
  pub project_state_revision : String
  pub base_commit : String
  pub worker_role : String
  pub worker_profile : String
  pub model_identity : String
  pub worktree_id : String
  pub status : AttemptStatus
  pub started_at : Timestamp
  pub finished_at : Option Timestamp
  pub candidate_commit : String
  pub repair_iterations : ℤ
  pub block_reason : Option BlockedReason
  pub failure_summary : String
  pub artifacts : List ArtifactRef
  pub created_seq : ℤ
  pub updated_seq : ℤ

-- `a.FinishedAt != nil && a.FinishedAt.Time().Before(a.StartedAt.Time())`
unfoldable pub ends_early : Option Timestamp → Timestamp → Bool
ends_early none start = false
ends_early (some end) start = ltb end start

unfoldable pub attempt_validate : Attempt → Result (Unit {0})
unfolding attempt_status_valid attempt_terminal attempt_status_eq ends_early reason_validate?
    artifacts_validate
attempt_validate a = do
  refuse (a.id == "") invalid_argument
  refuse (a.task_id == "") invalid_argument
  refuse (a.project_id == "") invalid_argument
  refuse (lt_ℤ a.ordinal (pos 1)) invalid_argument
  refuse (a.worker_role == "") invalid_argument
  refuse (not (attempt_status_valid a.status)) integrity
  refuse (lt_ℤ a.repair_iterations (pos 0)) invalid_argument
  refuse (xor (attempt_terminal a.status) (is_some a.finished_at)) integrity
  refuse (ends_early a.finished_at a.started_at) integrity
  refuse (xor (attempt_status_eq a.status blocked) (is_some a.block_reason)) integrity
  reason_validate? a.block_reason
  refuse (attempt_status_eq a.status candidate_produced && (a.candidate_commit == "")) integrity
  artifacts_validate a.artifacts

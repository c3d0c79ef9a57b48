-- ===== src/State/Attempts.antt =====
-- internal/state/reduce.go: the course of attempts.
use dev_cadence.Prelude.{
  ℤ, pos, suc, le_ℤ, String, ◌==◌, Bool, not, ◌&&◌, Option, none, some, is_some, List, [], ◌∷◌,
  ◌++◌, length, if◌then◌else◌,
}
use dev_cadence.Dict.{get, put}
use dev_cadence.Errs.{Result, ok, err, conflict, integrity, internal, invalid_transition}
use dev_cadence.Tasks.State.{State, state_eq, check_transition}
use dev_cadence.Tasks.Attempt.{
  Attempt, AttemptStatus, attempt_status_eq, check_attempt_transition, attempt_validate,
}
use dev_cadence.Events.Execution.{AttemptStarted, CandidateProduced, AttemptBlocked, AttemptFailed}
use dev_cadence.Events.Envelope.{Event}
use dev_cadence.State.Exec.{Exec, pure, ask, lift, check, modify, ◌>>=◌, ◌>>◌}
use dev_cadence.State.Projection.{Projection, task_of, attempt_of, listed}
use dev_cadence.State.Delivery.{transition_task}

-- The loop over the task's attempts. A listed id that is no key would be a nil dereference in the
-- code; it is `internal` here.
unfoldable pub refuse_running : List (Option Attempt) → Result (Unit {0})
refuse_running [] = ok tt
refuse_running (none ∷ rest) = err internal
refuse_running (some a ∷ rest) =
    let later = refuse_running rest in
    if attempt_status_eq a.status AttemptStatus.running then err conflict else later

unfoldable pub attempts_at : Projection → List String → List (Option Attempt)
attempts_at p [] = []
attempts_at p (id ∷ ids) = get p.attempts id ∷ attempts_at p ids

abbrev pub same_ℤ : ℤ → ℤ → Bool
same_ℤ a b = le_ℤ a b && le_ℤ b a

unfoldable pub new_attempt : Event → AttemptStarted → List String → Attempt
new_attempt e payload earlier = record {
  id = payload.attempt_id;
  project_id = e.project_id;
  task_id = payload.task_id;
  ordinal = pos (suc (length earlier));
  work_package_id = payload.work_package_id;
  work_package_version = payload.work_package_version;
  project_state_revision = payload.project_state_revision;
  base_commit = payload.base_commit;
  worker_role = payload.worker_role;
  worker_profile = payload.worker_profile;
  model_identity = payload.model_identity;
  worktree_id = payload.worktree_id;
  status = AttemptStatus.running;
  started_at = e.occurred_at;
  finished_at = none;
  candidate_commit = "";
  repair_iterations = pos 0;
  block_reason = none;
  failure_summary = "";
  artifacts = [];
  created_seq = e.seq;
  updated_seq = e.seq;
}

unfoldable pub apply_attempt_started : Event → AttemptStarted → Exec Projection (Unit {0})
apply_attempt_started e payload = do
  p ← ask
  task ← lift (task_of p payload.task_id)
  check (not (state_eq task.state State.running)) invalid_transition
  check (not (payload.work_package_id == task.work_package_id)) integrity
  check (not (same_ℤ payload.work_package_version task.work_package_version)) integrity
  check (is_some (get p.attempts payload.attempt_id)) conflict
  let earlier : List String = listed (get p.attempts_by_task payload.task_id)
  lift (refuse_running (attempts_at p earlier))
  let attempt : Attempt = new_attempt e payload earlier
  lift (attempt_validate attempt)
  modify λ p. record p {
    attempts = put p.attempts attempt.id attempt;
    attempts_by_task = put p.attempts_by_task payload.task_id (earlier ++ attempt.id ∷ []);
    tasks =
        put p.tasks payload.task_id
          (record task { current_attempt_id = attempt.id; updated_seq = e.seq });
  }

unfoldable pub finish_attempt :
    Event → String → String → AttemptStatus → (Attempt → Attempt) → Exec Projection Attempt
finish_attempt e task_id attempt_id to mutate = do
  p ← ask
  attempt ← lift (attempt_of p attempt_id)
  check (not (attempt.task_id == task_id)) integrity
  lift (check_attempt_transition attempt.status to)
  let staged : Attempt =
      mutate (record attempt { status = to; finished_at = some e.occurred_at; updated_seq = e.seq })
  lift (attempt_validate staged)
  modify λ p. record p { attempts = put p.attempts attempt_id staged }
  pure staged

unfoldable pub apply_candidate_produced : Event → CandidateProduced → Exec Projection (Unit {0})
apply_candidate_produced e payload = do
  p ← ask
  task ← lift (task_of p payload.task_id)
  lift (check_transition task.state State.validating)
  a ← finish_attempt e payload.task_id payload.attempt_id AttemptStatus.candidate_produced λ a.
      record a {
        candidate_commit = payload.candidate_commit;
        repair_iterations = payload.repair_iterations;
        artifacts = a.artifacts ++ payload.artifacts;
      }
  transition_task e payload.task_id State.validating ok

unfoldable pub apply_attempt_blocked : Event → AttemptBlocked → Exec Projection (Unit {0})
apply_attempt_blocked e payload = do
  a ← finish_attempt e payload.task_id payload.attempt_id AttemptStatus.blocked λ a. record a {
    block_reason = some (record payload.reason { attempt_id = payload.attempt_id });
  }
  pure tt

unfoldable pub apply_attempt_failed : Event → AttemptFailed → Exec Projection (Unit {0})
apply_attempt_failed e payload = do
  let status : AttemptStatus =
      if payload.cancelled then AttemptStatus.cancelled else AttemptStatus.failed
  a ← finish_attempt e payload.task_id payload.attempt_id status λ a. record a {
    failure_summary = payload.summary;
    repair_iterations = payload.repair_iterations;
    artifacts = a.artifacts ++ payload.artifacts;
  }
  pure tt

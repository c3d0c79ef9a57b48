-- ===== src/State/Tests.antt =====
-- One journal of internal/state, from the initialisation of a project to an accepted change.
mod Runs
mod Replays
use mathlib.Core.Bool.{xor}
use dev_cadence.Prelude.{ℕ, pos, String, ◌≡◌, refl, Bool, true, false, some, List, [], ◌∷◌, ◌++◌}
use dev_cadence.Errs.{Result, ok, err}
use dev_cadence.Protocol.Project.{ActorKind, actor_kind_valid}
use dev_cadence.Protocol.Delivery.{
  ChangeClass, DecisionAuthority, ValidationScope, ValidationOutcome, ReviewDimension,
  ReviewVerdict, change_class_valid, change_class_unset, decision_authority_valid,
  validation_scope_valid, validation_outcome_valid, review_dimension_valid, review_verdict_valid,
}
use dev_cadence.Events.Payloads.{
  Payload, payload_type, project_initialized, task_created, task_design_started,
  work_package_approved, task_delegated, attempt_started, candidate_produced, validation_completed,
  review_completed, change_accepted, payload_validate, registered,
}
use dev_cadence.Events.Envelope.{Correlation, Event, event_validate}
use dev_cadence.State.Projection.{Projection, new_projection, found, task_of, attempt_of}
use dev_cadence.State.Apply.{apply, reduce, reduce_from, on_discovery, apply_payload, apply_body}
use dev_cadence.Dict.{get, put}
use dev_cadence.Events.Common.{require_task_id}
use dev_cadence.Protocol.Records.{
  schema_version_validate, actor_validate, artifact_validate, artifacts_validate,
}
use dev_cadence.Tasks.Task.{
  has_evidence, reason_validate, reason_validate?, task_validate, blocked_authority,
}
use dev_cadence.Tasks.Attempt.{
  attempt_status_valid, attempt_status_eq, attempt_terminal, attempt_transitions,
  attempt_status_mem, check_attempt_transition, ends_early, attempt_validate,
}
use dev_cadence.Tasks.State.{check_transition}
use dev_cadence.State.Exec.{pure, lift, ask, modify, check, ◌>>=◌}
use dev_cadence.State.Lineage.{
  require_task_in_state, require_attempt_of, require_candidate, require_candidate_commit,
  record_evidence, evidence_for, require_evidence_for,
}
use dev_cadence.State.Facts.{apply_project_initialized, sorted_copy}
use dev_cadence.State.Delivery.{
  apply_task_created, transition_task, apply_work_package_proposed, approve_work_package,
  apply_work_package_approved, delegate_task, apply_task_delegated,
}
use dev_cadence.State.Attempts.{
  refuse_running, attempts_at, new_attempt, apply_attempt_started, finish_attempt,
  apply_candidate_produced, apply_attempt_blocked, apply_attempt_failed,
}
use dev_cadence.State.Evidence.{
  apply_attempt_validation, apply_integration_validation, baseline_status,
  apply_baseline_validation, validation_by_scope, apply_validation_completed,
  apply_review_completed, apply_change_accepted, apply_change_rejected, cited_attempt,
  apply_escalation_raised,
}
use dev_cadence.Events.Execution.{AttemptStarted}

abbrev pub no_correlation : Correlation
no_correlation = record {
  milestone_id = "";
  task_id = "";
  work_package_id = "";
  attempt_id = "";
  agent_run_id = "";
  evidence_packet_id = "";
  validation_id = "";
  review_id = "";
  consultation_id = "";
  decision_id = "";
}

abbrev pub event : ℕ → String → Payload → Event
event n t q = record {
  seq = pos n;
  schema_version = "1.0";
  event_id = "e";
  project_id = "P";
  event_type = t;
  occurred_at = n;
  actor = record { kind = ActorKind.principal; id = "me" };
  correlation = no_correlation;
  payload = some q;
  payload_digest = "";
}

abbrev pub initialization : Event
initialization = event 1 "ProjectInitialized" (
    project_initialized (record {
      name = "demo";
      accepted_commit = "aaaaaaa";
      branch = "main";
      repository_path = "/r";
      vision_ref = "";
      current_outcome = "";
      milestone_id = "M1";
      milestone_title = "First";
      active_invariants = [];
    }))

abbrev pub start_payload : AttemptStarted
start_payload = record {
  task_id = "T";
  attempt_id = "A";
  work_package_id = "W";
  work_package_version = pos 1;
  project_state_revision = "r";
  base_commit = "aaaaaaa";
  worker_role = "worker";
  worker_profile = "p";
  model_identity = "m";
  worktree_id = "w";
}

abbrev pub planning : List Event
planning =
    event 2 "TaskCreated" (
      task_created (record {
        task_id = "T";
        alias = "t-1";
        title = "Do it";
        milestone_id = "";
        change_class = ChangeClass.local;
        depends_on = [];
      }))
    ∷ event 3 "TaskDesignStarted"
        (task_design_started (record { task_id = "T"; reason = "plan"; evidence_packet_refs = [] }))
    ∷ event 4 "WorkPackageApproved" (
        work_package_approved (record {
          task_id = "T";
          work_package_id = "W";
          work_package_version = pos 1;
          record_digest = "d";
          project_state_revision = "r";
          base_commit = "aaaaaaa";
          change_class = ChangeClass.local;
        }))
    ∷ event 5 "TaskDelegated" (
        task_delegated (record {
          task_id = "T";
          work_package_id = "W";
          worker_role = "worker";
          worker_profile = "p";
          max_attempts = pos 2;
        }))
    ∷ event 6 "AttemptStarted" (attempt_started start_payload)
    ∷ []

abbrev pub acceptance : List Event
acceptance =
    event 7 "CandidateProduced" (
      candidate_produced (record {
        task_id = "T";
        attempt_id = "A";
        candidate_commit = "bbbbbbb";
        summary = "done";
        repair_iterations = pos 0;
        artifacts = [];
      }))
    ∷ event 8 "ValidationCompleted" (
        validation_completed (record {
          task_id = "T";
          attempt_id = "A";
          validation_id = "V";
          scope = ValidationScope.attempt;
          status = ValidationOutcome.pass;
          commit = "bbbbbbb";
          record_digest = "d";
          failed_checks = [];
        }))
    ∷ event 9 "ReviewCompleted" (
        review_completed (record {
          task_id = "T";
          attempt_id = "A";
          review_id = "R";
          work_package_id = "W";
          dimension = ReviewDimension.correctness;
          verdict = ReviewVerdict.pass;
          record_digest = "d";
          principal_escalation_recommended = false;
        }))
    ∷ event 10 "ChangeAccepted" (
        change_accepted (record {
          task_id = "T";
          attempt_id = "A";
          work_package_id = "W";
          candidate_commit = "bbbbbbb";
          semantic_summary = "it is done";
          validation_ids = "V" ∷ [];
          review_ids = "R" ∷ [];
          unresolved_disagreements = [];
          decided_by = DecisionAuthority.principal;
        }))
    ∷ []

abbrev pub journal : List Event
journal = initialization ∷ planning ++ acceptance

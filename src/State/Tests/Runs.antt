-- ===== src/State/Tests/Runs.antt =====
-- The reductions of the journal and of its parts.
use mathlib.Core.Bool.{xor}
use dev_cadence.Prelude.{Option, none, is_some, pos, ◌≡◌, refl, Bool, true, false, some, [], ◌∷◌}
use dev_cadence.Errs.{Result, ok, err}
use dev_cadence.Protocol.Project.{actor_kind_valid}
use dev_cadence.Protocol.Delivery.{
  ChangeClass, change_class_valid, change_class_unset, decision_authority_valid,
  validation_scope_valid, validation_outcome_valid, review_dimension_valid, review_verdict_valid,
}
use dev_cadence.Events.Payloads.{payload_type, attempt_started, payload_validate, registered}
use dev_cadence.Events.Envelope.{event_validate}
use dev_cadence.State.Projection.{Projection, new_projection, found, task_of, attempt_of}
use dev_cadence.State.Apply.{apply, reduce, reduce_from, on_discovery, apply_payload, apply_body}
use dev_cadence.Dict.{get, put}
use dev_cadence.Events.Common.{require_task_id}
use dev_cadence.Protocol.Records.{
  schema_version_validate, actor_validate, artifact_validate, artifacts_validate,
}
use dev_cadence.Tasks.Task.{
  Task, has_evidence, reason_validate, reason_validate?, task_validate, blocked_authority,
}
use dev_cadence.Tasks.Attempt.{
  Attempt, attempt_status_valid, attempt_status_eq, attempt_terminal, attempt_transitions,
  attempt_status_mem, check_attempt_transition, ends_early, attempt_validate,
}
use dev_cadence.Tasks.State.{State, can_transition, state_eq, check_transition}
use dev_cadence.State.Exec.{pure, lift, ask, modify, check, ◌>>=◌}
use dev_cadence.State.Lineage.{
  require_task_in_state, require_attempt_of, require_candidate, require_candidate_commit,
  record_evidence, evidence_for, require_evidence_for,
}
use dev_cadence.State.Facts.{apply_project_initialized, sorted_copy}
use dev_cadence.State.Delivery.{
  apply_task_created, transition_task, apply_work_package_proposed, approve_work_package,
  apply_work_package_approved, delegate_task, apply_task_delegated,
}
use dev_cadence.State.Attempts.{
  refuse_running, attempts_at, new_attempt, apply_attempt_started, finish_attempt,
  apply_candidate_produced, apply_attempt_blocked, apply_attempt_failed,
}
use dev_cadence.State.Evidence.{
  apply_attempt_validation, apply_integration_validation, baseline_status,
  apply_baseline_validation, validation_by_scope, apply_validation_completed,
  apply_review_completed, apply_change_accepted, apply_change_rejected, cited_attempt,
  apply_escalation_raised,
}
use dev_cadence.State.Tests.{event, start_payload, initialization, planning, acceptance, journal}

abbrev pub reduced : Result Projection → Projection
reduced (ok p) = p
reduced (err c) = new_projection

abbrev pub succeeded : Result Projection → Bool
succeeded (ok p) = true
succeeded (err c) = false

pub returned : (r : Result Projection) → succeeded r ≡ true → r ≡ ok (reduced r)
returned (ok p) h = refl
returned (err c) h = cc

abbrev pub final : Projection
unfolding get put require_task_id schema_version_validate actor_validate artifact_validate
    artifacts_validate actor_kind_valid change_class_valid change_class_unset
    decision_authority_valid validation_scope_valid validation_outcome_valid review_dimension_valid
    review_verdict_valid has_evidence reason_validate reason_validate? task_validate
    blocked_authority attempt_status_valid attempt_status_eq attempt_terminal attempt_transitions
    attempt_status_mem check_attempt_transition ends_early attempt_validate check_transition
    payload_validate registered payload_type event_validate pure lift ask modify check ◌>>=◌ found
    task_of attempt_of require_task_in_state require_attempt_of require_candidate
    require_candidate_commit record_evidence evidence_for require_evidence_for
    apply_project_initialized sorted_copy apply_task_created transition_task
    apply_work_package_proposed approve_work_package apply_work_package_approved delegate_task
    apply_task_delegated refuse_running attempts_at new_attempt apply_attempt_started finish_attempt
    apply_candidate_produced apply_attempt_blocked apply_attempt_failed apply_attempt_validation
    apply_integration_validation baseline_status apply_baseline_validation validation_by_scope
    apply_validation_completed apply_review_completed apply_change_accepted apply_change_rejected
    cited_attempt apply_escalation_raised on_discovery apply_payload apply_body apply reduce_from
    reduce xor
final = reduced (reduce journal)

pub journal_reduces : reduce journal ≡ ok final
unfolding final
journal_reduces = returned (reduce journal) refl

abbrev pub ready : Projection
unfolding get put require_task_id schema_version_validate actor_validate artifact_validate
    artifacts_validate actor_kind_valid change_class_valid change_class_unset
    decision_authority_valid validation_scope_valid validation_outcome_valid review_dimension_valid
    review_verdict_valid has_evidence reason_validate reason_validate? task_validate
    blocked_authority attempt_status_valid attempt_status_eq attempt_terminal attempt_transitions
    attempt_status_mem check_attempt_transition ends_early attempt_validate check_transition
    payload_validate registered payload_type event_validate pure lift ask modify check ◌>>=◌ found
    task_of attempt_of require_task_in_state require_attempt_of require_candidate
    require_candidate_commit record_evidence evidence_for require_evidence_for
    apply_project_initialized sorted_copy apply_task_created transition_task
    apply_work_package_proposed approve_work_package apply_work_package_approved delegate_task
    apply_task_delegated refuse_running attempts_at new_attempt apply_attempt_started finish_attempt
    apply_candidate_produced apply_attempt_blocked apply_attempt_failed apply_attempt_validation
    apply_integration_validation baseline_status apply_baseline_validation validation_by_scope
    apply_validation_completed apply_review_completed apply_change_accepted apply_change_rejected
    cited_attempt apply_escalation_raised on_discovery apply_payload apply_body apply reduce_from
    reduce xor
ready = reduced (reduce (initialization ∷ planning))

pub planning_reduces : reduce (initialization ∷ planning) ≡ ok ready
unfolding ready
planning_reduces = returned (reduce (initialization ∷ planning)) refl

-- The acceptance, going on from the projection of the planning.
abbrev pub later : Projection
unfolding get put require_task_id schema_version_validate actor_validate artifact_validate
    artifacts_validate actor_kind_valid change_class_valid change_class_unset
    decision_authority_valid validation_scope_valid validation_outcome_valid review_dimension_valid
    review_verdict_valid has_evidence reason_validate reason_validate? task_validate
    blocked_authority attempt_status_valid attempt_status_eq attempt_terminal attempt_transitions
    attempt_status_mem check_attempt_transition ends_early attempt_validate check_transition
    payload_validate registered payload_type event_validate pure lift ask modify check ◌>>=◌ found
    task_of attempt_of require_task_in_state require_attempt_of require_candidate
    require_candidate_commit record_evidence evidence_for require_evidence_for
    apply_project_initialized sorted_copy apply_task_created transition_task
    apply_work_package_proposed approve_work_package apply_work_package_approved delegate_task
    apply_task_delegated refuse_running attempts_at new_attempt apply_attempt_started finish_attempt
    apply_candidate_produced apply_attempt_blocked apply_attempt_failed apply_attempt_validation
    apply_integration_validation baseline_status apply_baseline_validation validation_by_scope
    apply_validation_completed apply_review_completed apply_change_accepted apply_change_rejected
    cited_attempt apply_escalation_raised on_discovery apply_payload apply_body apply reduce_from
    reduce xor
later = reduced (reduce_from ready acceptance)

pub acceptance_reduces : reduce_from ready acceptance ≡ ok later
unfolding later
acceptance_reduces = returned (reduce_from ready acceptance) refl

abbrev pub or_task : Option Task → Task
or_task (some t) = t
or_task none = record {
  id = "";
  project_id = "";
  alias = "";
  title = "";
  milestone_id = "";
  change_class = ChangeClass.local;
  state = State.proposed;
  work_package_id = "";
  work_package_version = pos 0;
  current_attempt_id = "";
  blocked_reason = none;
  accepted_commit = "";
  created_seq = pos 0;
  updated_seq = pos 0;
}

is_there : (o : Option Task) → is_some o ≡ true → o ≡ some (or_task o)
is_there (some t) h = refl
is_there none h = cc

-- The task, in delegation and as accepted.
abbrev pub delegated : Task
unfolding ready
delegated = or_task (get ready.tasks "T")

pub delegated_there : get ready.tasks "T" ≡ some delegated
unfolding delegated
delegated_there = is_there (get ready.tasks "T") refl

abbrev pub accepted : Task
unfolding final
accepted = or_task (get final.tasks "T")

pub accepted_there : get final.tasks "T" ≡ some accepted
unfolding accepted
accepted_there = is_there (get final.tasks "T") refl

pub delegated_valid :
    (task_validate delegated ≡ ok tt)
    × (can_transition delegated.state State.validating ≡ true)
    × (state_eq delegated.state State.blocked ≡ false)
    × (state_eq State.validating State.blocked ≡ false)
unfolding delegated can_transition state_eq
delegated_valid = (refl, refl, refl, refl)

abbrev pub started : Attempt
unfolding ready
started = new_attempt (event 6 "AttemptStarted" (attempt_started start_payload)) start_payload []

pub started_there : get ready.attempts "A" ≡ some started
unfolding started
started_there = refl

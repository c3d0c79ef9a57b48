-- ===== src/State/Evidence.antt =====
-- internal/state/reduce.go: validations and reviews, and the decisions that rest on them.
use dev_cadence.Prelude.{String, ◌==◌, true, not, ◌&&◌, ◌||◌, some, [], ◌∷◌, ◌++◌, if◌then◌else◌}
use dev_cadence.Errs.{Result, ok, err, integrity, internal}
use dev_cadence.Protocol.Delivery.{ValidationOutcome, ValidationScope}
use dev_cadence.Protocol.Project.{ValidationStatus}
use dev_cadence.Tasks.State.{State}
use dev_cadence.Tasks.Task.{Task}
use dev_cadence.Tasks.Attempt.{Attempt}
use dev_cadence.Events.Evidence.{ValidationCompleted, ReviewCompleted, is_pass}
use dev_cadence.Events.Decision.{ChangeAccepted, ChangeRejected, EscalationRaised}
use dev_cadence.Events.Envelope.{Event}
use dev_cadence.State.Exec.{Exec, pure, ask, lift, check, modify, ◌>>=◌, ◌>>◌}
use dev_cadence.State.Projection.{EvidenceRef, Projection, task_of}
use dev_cadence.State.Lineage.{
  require_task_in_state, require_attempt_of, require_candidate, require_candidate_commit,
  record_evidence, require_evidence_for, scope_attempt_evidence,
}
use dev_cadence.State.Delivery.{transition_task}
use dev_cadence.State.Attempts.{same_ℤ}

-- Evidence about the candidate of an attempt.
abbrev pub candidate_evidence : Task → Attempt → EvidenceRef
candidate_evidence task attempt = record {
  scope = scope_attempt_evidence;
  task_id = task.id;
  attempt_id = attempt.id;
  commit = attempt.candidate_commit;
}

unfoldable pub apply_attempt_validation : Event → ValidationCompleted → Exec Projection (Unit {0})
apply_attempt_validation e payload = do
  p ← ask
  task ← lift (require_task_in_state p payload.task_id State.validating)
  attempt ← lift (require_attempt_of p task.id payload.attempt_id)
  lift (require_candidate attempt)
  lift (require_candidate_commit attempt payload.commit)
  recorded ←
      lift (record_evidence p.validations payload.validation_id (candidate_evidence task attempt))
  modify λ p. record p { validations = recorded }
  transition_task e payload.task_id
      (if is_pass payload.status then State.reviewing else State.running) ok

-- What a passed integration makes the accepted commit. The transition to DONE leaves the task's own
-- accepted commit as it was.
abbrev pub integrated_commit : Projection → ValidationCompleted → Task → String
integrated_commit p payload task =
    if not (payload.commit == "")
    then payload.commit
    else if not (task.accepted_commit == "")
    then task.accepted_commit
    else p.accepted_commit

unfoldable pub apply_integration_validation :
    Event → ValidationCompleted → Exec Projection (Unit {0})
apply_integration_validation e payload = do
  p ← ask
  task ← lift (require_task_in_state p payload.task_id State.integration_validating)
  recorded ← lift (
      record_evidence p.validations payload.validation_id (record {
        scope = "integration";
        task_id = task.id;
        attempt_id = "";
        commit = payload.commit;
      }))
  modify λ p. record p { validations = recorded }
  if not (is_pass payload.status) then pure tt else do
    transition_task e payload.task_id State.done ok
    modify λ p. record p { accepted_commit = integrated_commit p payload task }

unfoldable pub baseline_status : ValidationOutcome → ValidationStatus
baseline_status ValidationOutcome.pass = ValidationStatus.green
baseline_status ValidationOutcome.cancelled = ValidationStatus.undetermined
baseline_status ValidationOutcome.error = ValidationStatus.undetermined
baseline_status _ = ValidationStatus.red

unfoldable pub apply_baseline_validation : ValidationCompleted → Exec Projection (Unit {0})
unfolding baseline_status
apply_baseline_validation payload = modify λ p. record p {
  validation = record {
    status = baseline_status payload.status;
    accepted_commit_verified =
        is_pass payload.status
        && not (payload.commit == "")
        && (payload.commit == p.accepted_commit);
    last_full_validation_id = some payload.validation_id;
  };
}

unfoldable pub validation_by_scope :
    Event → ValidationCompleted → ValidationScope → Exec Projection (Unit {0})
validation_by_scope e payload ValidationScope.baseline = apply_baseline_validation payload
validation_by_scope e payload ValidationScope.attempt = apply_attempt_validation e payload
validation_by_scope e payload ValidationScope.integration = apply_integration_validation e payload
validation_by_scope e payload (ValidationScope.unknown s) = check true internal

unfoldable pub apply_validation_completed : Event → ValidationCompleted → Exec Projection (Unit {0})
unfolding validation_by_scope
apply_validation_completed e payload = validation_by_scope e payload payload.scope

unfoldable pub apply_review_completed : ReviewCompleted → Exec Projection (Unit {0})
apply_review_completed payload = do
  p ← ask
  task ← lift (require_task_in_state p payload.task_id State.reviewing)
  attempt ← lift (require_attempt_of p task.id payload.attempt_id)
  lift (require_candidate attempt)
  check (not (payload.work_package_id == attempt.work_package_id)) integrity
  recorded ← lift (record_evidence p.reviews payload.review_id (candidate_evidence task attempt))
  modify λ p. record p { reviews = recorded }

unfoldable pub apply_change_accepted : Event → ChangeAccepted → Exec Projection (Unit {0})
apply_change_accepted e payload = do
  p ← ask
  task ← lift (require_task_in_state p payload.task_id State.reviewing)
  attempt ← lift (require_attempt_of p task.id payload.attempt_id)
  lift (require_candidate attempt)
  lift (require_candidate_commit attempt payload.candidate_commit)
  check (not (payload.work_package_id == task.work_package_id)) integrity
  check
      (not (attempt.work_package_id == task.work_package_id)
        || not (same_ℤ attempt.work_package_version task.work_package_version))
      integrity
  lift (require_evidence_for p.validations payload.validation_ids task attempt)
  lift (require_evidence_for p.reviews payload.review_ids task attempt)
  transition_task e payload.task_id State.accepted
      λ t. ok (record t { accepted_commit = payload.candidate_commit })
  modify λ p. record p {
    semantic_changes =
        p.semantic_changes
        ++ (record {
          task_id = task.alias;
          commit = some payload.candidate_commit;
          summary = payload.semantic_summary;
        })
          ∷ [];
  }

unfoldable pub apply_change_rejected : Event → ChangeRejected → Exec Projection (Unit {0})
apply_change_rejected e payload = do
  p ← ask
  task ← lift (require_task_in_state p payload.task_id State.reviewing)
  attempt ← lift (require_attempt_of p task.id payload.attempt_id)
  lift (require_candidate attempt)
  transition_task e payload.task_id State.running ok

-- `if payload.Reason.AttemptID != "" { _, err := p.requireAttemptOf(…) }`
unfoldable pub cited_attempt : Projection → String → String → Result (Unit {0})
cited_attempt p task_id attempt_id =
    if attempt_id == ""
    then ok tt
    else elim (require_attempt_of p task_id attempt_id) [ ok a ↦ ok tt | err c ↦ err c ]

unfoldable pub apply_escalation_raised : Event → EscalationRaised → Exec Projection (Unit {0})
apply_escalation_raised e payload = do
  p ← ask
  task ← lift (task_of p payload.task_id)
  lift (cited_attempt p task.id payload.reason.attempt_id)
  transition_task e payload.task_id State.blocked λ t.
      ok (record t { blocked_reason = some (record payload.reason { blocked_from = task.state }) })

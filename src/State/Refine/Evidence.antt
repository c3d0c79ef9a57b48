-- ===== src/State/Refine/Evidence.antt =====
-- The events that record evidence and decide on it (internal/state/reduce.go), as moves of the abstract
-- machine.
use dev_cadence.Prelude.{
  String, ◌≡◌, ◌≢◌, refl, sym, ap, subst, inr, true, false, Bool, not, some, arith, if◌then◌else◌,
}
use dev_cadence.Dict.{get}
use dev_cadence.Protocol.Delivery.{ValidationScope}
use dev_cadence.Tasks.State.{State, state_eq, can_transition}
use dev_cadence.Tasks.Task.{Task}
use dev_cadence.Tasks.Attempt.{Attempt, AttemptStatus}
use dev_cadence.Events.Evidence.{ValidationCompleted, ReviewCompleted, is_pass}
use dev_cadence.Events.Decision.{ChangeRejected, EscalationRaised}
use dev_cadence.Events.Envelope.{Event}
use dev_cadence.State.Exec.{
  ask_rule, bind_rule, lift_rule, check_rule, modify_rule, modify-Ends, ok-Ends, err-Ends, check,
  lift, if_rule, Ends-no_error, pure,
}
use dev_cadence.State.Projection.{Projection}
use dev_cadence.State.Lineage.Outcomes.{
  require_task_in_state-ok, require_attempt_of-ok, require_candidate-ok, record_evidence-ok,
}
use dev_cadence.State.Evidence.{
  candidate_evidence, apply_attempt_validation, apply_integration_validation,
  apply_baseline_validation, validation_by_scope, apply_validation_completed,
  apply_review_completed, apply_change_rejected, apply_escalation_raised,
}
use dev_cadence.State.Core.{core, validate, review, IsAbout}
use dev_cadence.State.Sound.{Sound}
use dev_cadence.State.Refine.{Refines, still, recording, plain_moved, transition_succeeds}
use dev_cadence.State.Refine.Delivery.{plain-Refines, moved-Refines}

module _ (p : Projection) (e : Event) (s : Sound (core p)) where
  -- Evidence that the reducer writes about a candidate is about it.
  candidate_evidence-IsAbout :
      (t : Task) (id : String) (a : Attempt)
      → get p.attempts id ≡ some a
      → a.task_id ≡ t.id
      → a.status ≡ AttemptStatus.candidate_produced
      → IsAbout (core p) (candidate_evidence t a)
  candidate_evidence-IsAbout t id a there own produced = record {
    attempt = a;
    found = subst (λ k. get p.attempts k ≡ some a) (sym (s.attempts_valid id a there).0) there;
    of_task = own;
    produced = produced;
    same_commit = refl;
  }

  judged :
      (b : Bool)
      → (can_transition State.validating (if b then State.reviewing else State.running) ≡ true)
        × (state_eq (if b then State.reviewing else State.running) State.blocked ≡ false)
        × ((if b then State.reviewing else State.running) ≢ State.accepted)
  unfolding can_transition
  judged true = (refl, refl, λ h. cc)
  judged false = (refl, refl, λ h. cc)

  open_validating : (t : Task) → t.state ≡ State.validating → state_eq t.state State.blocked ≡ false
  unfolding state_eq
  open_validating t h = rw h refl

  attempt_validation-Refines : (q : ValidationCompleted) → Refines p (apply_attempt_validation e q)
  unfolding apply_attempt_validation
  attempt_validation-Refines q = ask_rule _ _ (
      lift_rule _ _ _ refl λ task there. lift_rule _ _ _ refl λ a own.
        lift_rule _ _ _ refl λ _ candidate. lift_rule _ _ _ refl λ _ commit.
          lift_rule _ _ _ refl λ m fresh. modify_rule _ _ _ (
            let (ht, at_validating) = require_task_in_state-ok p q.task_id State.validating there in
            let (ha, of_task) = require_attempt_of-ok p task.id q.attempt_id own in
            let (free, written) = record_evidence-ok p.validations q.validation_id _ fresh in
            let (edge, to_open, ne) = judged (is_pass q.status) in
            Ends-no_error
              (λ _ u moved. record {
                between = core (record p { validations = m });
                recorded =
                    validate q.validation_id (candidate_evidence task a) free
                      (λ _.
                        candidate_evidence-IsAbout task q.attempt_id a ha of_task
                          (require_candidate-ok a candidate))
                      (ap (λ v. core (record p { validations = v })) written);
                shifted = plain_moved ne moved;
              })
              (transition_succeeds e q.task_id _ (record p { validations = m }) task ht
                (s.tasks_valid q.task_id task ht).1 (rw at_validating edge)
                (open_validating task at_validating) to_open)))

  integration_validation-Refines :
      (q : ValidationCompleted) → Refines p (apply_integration_validation e q)
  unfolding apply_integration_validation can_transition state_eq pure
  integration_validation-Refines q = ask_rule _ _ (
      lift_rule _ _ _ refl λ task there. lift_rule _ _ _ refl λ m fresh. modify_rule _ _ _ (
        let (ht, at_validating) =
          require_task_in_state-ok p q.task_id State.integration_validating there in
        let (free, written) = record_evidence-ok p.validations q.validation_id _ fresh in
        let t : Projection = record p { validations = m } in
        let recorded =
          validate q.validation_id
            (record {
              scope = "integration";
              task_id = task.id;
              attempt_id = "";
              commit = q.commit;
            })
            free (λ h. cc) (ap (λ v. core (record p { validations = v })) written) in
        if_rule (not (is_pass q.status)) _ _ _ (λ _. ok-Ends tt t (recording recorded))
          (λ _.
            bind_rule _ _ _
              (Ends-no_error (λ _ u h. h)
                (transition_succeeds e q.task_id State.done t task ht
                  (s.tasks_valid q.task_id task ht).1 (rw at_validating refl)
                  (rw at_validating refl) refl))
              λ _ u moved. modify-Ends _ _ (record {
                between = core t;
                recorded = recorded;
                shifted = plain_moved (λ h. cc) moved;
              }))))

  by_scope-Refines :
      (q : ValidationCompleted) (scope : ValidationScope)
      → Refines p (validation_by_scope e q scope)
  unfolding validation_by_scope apply_baseline_validation check lift
  by_scope-Refines q ValidationScope.baseline = modify-Ends _ _ (still refl)
  by_scope-Refines q ValidationScope.attempt = attempt_validation-Refines q
  by_scope-Refines q ValidationScope.integration = integration_validation-Refines q
  by_scope-Refines q (ValidationScope.unknown x) = err-Ends _ _ refl

  pub validation_completed-Refines :
      (q : ValidationCompleted) → Refines p (apply_validation_completed e q)
  unfolding apply_validation_completed
  validation_completed-Refines q = by_scope-Refines q q.scope

  pub review_completed-Refines : (q : ReviewCompleted) → Refines p (apply_review_completed q)
  unfolding apply_review_completed
  review_completed-Refines q = ask_rule _ _ (
      lift_rule _ _ _ refl λ task there. lift_rule _ _ _ refl λ a own.
        lift_rule _ _ _ refl λ _ candidate. check_rule _ _ _ _ refl λ _.
          lift_rule _ _ _ refl λ m fresh. modify-Ends _ _ (
            let (ha, of_task) = require_attempt_of-ok p task.id q.attempt_id own in
            let (free, written) = record_evidence-ok p.reviews q.review_id _ fresh in
            recording (
              review q.review_id (candidate_evidence task a) free
                (λ _.
                  candidate_evidence-IsAbout task q.attempt_id a ha of_task
                    (require_candidate-ok a candidate))
                (ap (λ v. core (record p { reviews = v })) written))))

  pub change_rejected-Refines : (q : ChangeRejected) → Refines p (apply_change_rejected e q)
  unfolding apply_change_rejected
  change_rejected-Refines q = ask_rule _ _ (
      lift_rule _ _ _ refl λ task there. lift_rule _ _ _ refl λ a own.
        lift_rule _ _ _ refl λ _ candidate. plain-Refines p e q.task_id State.running (λ h. cc))

  pub escalation_raised-Refines : (q : EscalationRaised) → Refines p (apply_escalation_raised e q)
  unfolding apply_escalation_raised
  escalation_raised-Refines q = ask_rule _ _ (
      lift_rule _ _ _ refl λ task there. lift_rule _ _ _ refl λ _ _.
        moved-Refines p e q.task_id State.blocked _
          (record { same = λ t m h. ground arith; state = λ t m h. ground arith }) (λ h. cc)
          (λ t m _ h. inr (ground arith)))

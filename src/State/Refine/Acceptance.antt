-- ===== src/State/Refine/Acceptance.antt =====
-- `ChangeAccepted` (internal/state/reduce.go) and the justification of the accepted commit (DCI-032).
use dev_cadence.Prelude.{
  ℤ, pos, negsuc, ◌≡◌, refl, sym, ap, subst, ◌∙◌, true, false, not, ◌||◌, ◌==◌, some, arith, eq_iff,
}
use dev_cadence.Dict.{get, put}
use dev_cadence.Errs.{ok_injective, ok}
use dev_cadence.Tasks.State.{State}
use dev_cadence.Tasks.Task.{Task, task_validate}
use dev_cadence.Tasks.Attempt.{Attempt, AttemptStatus}
use dev_cadence.Events.Decision.{ChangeAccepted, change_accepted_validate}
use dev_cadence.Events.Envelope.{Event}
use dev_cadence.State.Exec.{ask_rule, bind_rule, lift_rule, check_rule, modify-Ends}
use dev_cadence.State.Projection.{Projection}
use dev_cadence.State.Lineage.Outcomes.{
  require_task_in_state-ok, require_attempt_of-ok, require_candidate-ok,
  require_candidate_commit-ok, require_evidence_for-Cites, Cites,
}
use dev_cadence.State.Attempts.{same_ℤ}
use dev_cadence.State.Evidence.{apply_change_accepted}
use dev_cadence.State.Core.{core, accept, IsJustified, Shifts}
use dev_cadence.State.Sound.{Sound}
use dev_cadence.State.Refine.{Refines, shift, transition-Ends, Transitioned}

pub same_ℤ→≡ : (a b : ℤ) → same_ℤ a b ≡ true → a ≡ b
same_ℤ→≡ (pos m) (pos n) h = ap pos (ground arith)
same_ℤ→≡ (negsuc m) (negsuc n) h = ap negsuc (ground arith)
same_ℤ→≡ a b h = ground arith

-- The attempt's plan is the task's, when neither test of the guard fires.
same_plan :
    (a : Attempt) (t : Task)
    → (not (a.work_package_id == t.work_package_id)
        || not (same_ℤ a.work_package_version t.work_package_version))
      ≡ false
    → (a.work_package_id ≡ t.work_package_id) × (a.work_package_version ≡ t.work_package_version)
same_plan a t h =
    (ground (arith, eq_iff a.work_package_id t.work_package_id), same_ℤ→≡ _ _ (ground arith))

module _ (p : Projection) (e : Event) (s : Sound (core p)) (q : ChangeAccepted) where
  -- The task as the decision leaves it.
  abbrev accepted_task : Task → Task
  accepted_task t = record t {
    state = State.accepted;
    accepted_commit = q.candidate_commit;
    updated_seq = e.seq;
  }

  justified :
      (t : Task) (a : Attempt)
      → get p.attempts q.attempt_id ≡ some a
      → a.task_id ≡ t.id
      → a.status ≡ AttemptStatus.candidate_produced
      → q.candidate_commit ≡ a.candidate_commit
      → (a.work_package_id ≡ t.work_package_id) × (a.work_package_version ≡ t.work_package_version)
      → Cites p.validations t.id a.id
      → Cites p.reviews t.id a.id
      → IsJustified (core p) (accepted_task t)
  justified t a there own produced commit plan v r =
      let same : a.id ≡ q.attempt_id = (s.attempts_valid q.attempt_id a there).0 in
      record {
        attempt_id = q.attempt_id;
        attempt = a;
        found = there;
        of_task = own;
        produced = produced;
        same_commit = sym commit;
        same_package = plan.0;
        same_version = plan.1;
        validation_id = v.id;
        validation = v.ref;
        validated = v.found;
        validation_about = (v.about.0, v.about.1 ∙ same);
        review_id = r.id;
        review = r.ref;
        reviewed = r.found;
        review_about = (r.about.0, r.about.1 ∙ same);
      }

  accepted_shift :
      (t : Task) {u : Projection}
      → get p.tasks q.task_id ≡ some t
      → t.state ≡ State.reviewing
      → IsJustified (core p) (accepted_task t)
      → Transitioned e q.task_id State.accepted
          (λ t. ok (record t { accepted_commit = q.candidate_commit }))
          p
          u
      → Shifts (core p) (core u)
  accepted_shift t {u} there at_reviewing just h =
      accept q.task_id t (accepted_task t) there at_reviewing refl just
        (subst (λ x. task_validate x ≡ ok tt) written h.valid)
        (record {
          id = refl;
          project_id = refl;
          alias = refl;
          title = refl;
          milestone_id = refl;
          created_seq = refl;
        })
        (ap core h.result ∙ ap (λ x. core (record p { tasks = put p.tasks q.task_id x })) written)
    where
      task_there : h.task ≡ t
      task_there = ground (arith, h.was_there)

      written : record h.mutated { updated_seq = e.seq } ≡ accepted_task t
      written =
          ap (λ (x : Task). record x { updated_seq = e.seq }) (sym (ok_injective h.by_mutate))
          ∙ ap accepted_task task_there

  pub change_accepted-Refines :
      change_accepted_validate q ≡ ok tt → Refines p (apply_change_accepted e q)
  unfolding apply_change_accepted change_accepted_validate
  change_accepted-Refines valid = ask_rule _ _ (
      lift_rule _ _ _ refl λ task there. lift_rule _ _ _ refl λ a own.
        lift_rule _ _ _ refl λ _ candidate. lift_rule _ _ _ refl λ _ commit.
          check_rule _ _ _ _ refl λ _. check_rule _ _ _ _ refl λ plan.
            lift_rule _ _ _ refl λ _ validations. lift_rule _ _ _ refl λ _ reviews.
              bind_rule _ _ _ (transition-Ends e q.task_id State.accepted _ p) λ _ u h.
                modify-Ends _ _ (
                  let (ht, at_reviewing) =
                    require_task_in_state-ok p q.task_id State.reviewing there in
                  let (ha, of_task) = require_attempt_of-ok p task.id q.attempt_id own in
                  shift (
                    accepted_shift task ht at_reviewing
                      (justified task a ha of_task (require_candidate-ok a candidate)
                        (require_candidate_commit-ok a q.candidate_commit commit)
                        (same_plan a task plan)
                        (require_evidence_for-Cites p.validations q.validation_ids task a
                          (ground arith) validations)
                        (require_evidence_for-Cites p.reviews q.review_ids task a (ground arith)
                          reviews))
                      h)))

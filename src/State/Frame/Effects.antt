-- ===== src/State/Frame/Effects.antt =====
-- What one event of internal/state does to the project's identity and to its accepted commit.
use dev_cadence.Prelude.{◌≡◌, refl, Bool, true, false, not, ◌==◌, some, arith}
use dev_cadence.Dict.{get}
use dev_cadence.Errs.{Result, ok}
use dev_cadence.Protocol.Delivery.{ValidationScope}
use dev_cadence.Tasks.State.{State}
use dev_cadence.Tasks.Task.{Task}
use dev_cadence.Events.Project.{ProjectInitialized}
use dev_cadence.Events.Evidence.{ValidationCompleted, validation_completed_validate, is_pass}
use dev_cadence.Events.Payloads.{
  Payload, project_initialized, milestone_started, component_declared, design_candidate_created,
  decision_required_raised, decision_recorded, risk_recorded, risk_resolved, health_report_recorded,
  module_catalog_recorded, requirement_recorded, problem_model_revised, ambiguity_opened,
  ambiguity_resolved, product_decision_recorded, discovery_experiment_started,
  discovery_experiment_completed, specification_review_completed, specification_readiness_recorded,
  task_created, task_scouting_started, task_design_started, work_package_proposed,
  work_package_approved, task_delegated, attempt_started, candidate_produced, attempt_blocked,
  attempt_failed, validation_completed, review_invocation_started, review_completed,
  change_accepted, change_rejected, escalation_raised, integration_started,
  integration_validation_started, lesson_candidate_created, lesson_promoted,
  refactoring_epoch_started, architecture_reconciled, payload_type, payload_validate,
}
use dev_cadence.Events.Envelope.{Event}
use dev_cadence.State.Exec.{
  Ends, pure, lift, check, ask_rule, bind_rule, lift_rule, modify_rule, modify-Ends, ok-Ends,
  err-Ends, if_rule, Ends-mono,
}
use dev_cadence.State.Projection.{Projection}
use dev_cadence.State.Lineage.Outcomes.{require_task_in_state-ok}
use dev_cadence.State.Facts.{apply_project_initialized}
use dev_cadence.State.Evidence.{
  apply_integration_validation, apply_baseline_validation, validation_by_scope,
  apply_validation_completed,
}
use dev_cadence.State.Apply.{apply_payload}
use dev_cadence.State.Frame.{Frame, pure-Framed}
use dev_cadence.State.Frame.Handlers

abbrev pub is_project_initialized : Payload → Bool
is_project_initialized (project_initialized i) = true
is_project_initialized _ = false

pub payload_type-initialized :
    (q : Payload) → (payload_type q == "ProjectInitialized") ≡ is_project_initialized q
unfolding payload_type
payload_type-initialized (project_initialized i) = refl
payload_type-initialized _ = refl

-- The three ways in which an event may end for the project.
pub data Effect (p : Projection) (e : Event) (q : Payload) (s : Projection) : Type 0 where
  framed : is_project_initialized q ≡ false → Frame p s → Effect p e q s
  initialised :
      (i : ProjectInitialized)
      → q ≡ project_initialized i
      → s.project_id ≡ e.project_id
      → s.initialised ≡ true
      → s.accepted_commit ≡ i.accepted_commit
      → Effect p e q s
  integrated :
      (v : ValidationCompleted) (t : Task)
      → q ≡ validation_completed v
      → v.scope ≡ ValidationScope.integration
      → is_pass v.status ≡ true
      → get p.tasks v.task_id ≡ some t
      → t.state ≡ State.integration_validating
      → s.project_id ≡ p.project_id
      → s.initialised ≡ p.initialised
      → s.accepted_commit ≡ v.commit
      → Effect p e q s

-- The watermark is not part of it.
pub marked-Effect :
    {p s : Projection} {e : Event} {q : Payload}
    → Effect p e q s
    → Effect p e q (record s { high_watermark = e.seq; last_occurred_at = e.occurred_at })
marked-Effect (framed o f) = framed o (record {
  project_id = f.project_id;
  initialised = f.initialised;
  accepted_commit = f.accepted_commit;
})
marked-Effect (initialised i h0 h1 h2 h3) = initialised i h0 h1 h2 h3
marked-Effect (integrated v t h0 h1 h2 h3 h4 h5 h6 h7) = integrated v t h0 h1 h2 h3 h4 h5 h6 h7

abbrev Affects : Projection → Event → Payload → Type 0
Affects p e q = Ends (λ _. Unit {0}) (λ _ s. Effect p e q s) (apply_payload e q p)

module _ (p : Projection) (e : Event) where
  module _ (v : ValidationCompleted) (valid : validation_completed_validate v ≡ ok tt) where
    has_commit : (v.commit == "") ≡ false
    unfolding validation_completed_validate
    has_commit = ground arith

    integration-Effect :
        v.scope ≡ ValidationScope.integration
        → Ends
            (λ _. Unit {0})
            (λ _ s. Effect p e (validation_completed v) s)
            (apply_integration_validation e v p)
    unfolding apply_integration_validation pure
    integration-Effect scope = ask_rule _ _ (
        lift_rule _ _ _ tt λ task there. lift_rule _ _ _ tt λ m _. modify_rule _ _ _ (
          if_rule (not (is_pass v.status)) _ _ _
            (λ _. ok-Ends tt _ (
              framed refl
                (record { project_id = refl; initialised = refl; accepted_commit = refl })))
            λ passed.
              bind_rule _ _ _
                (Handlers.transition_task-Framed e v.task_id State.done ok
                  (record p { validations = m }))
                λ _ t kept. modify-Ends _ _ (
                  let (ht, at_validating) =
                    require_task_in_state-ok p v.task_id State.integration_validating there in
                  integrated v task refl scope (ground arith) ht at_validating kept.project_id
                    kept.initialised (rw has_commit refl))))

    by_scope-Effect :
        (scope : ValidationScope)
        → v.scope ≡ scope
        → Ends
            (λ _. Unit {0})
            (λ _ s. Effect p e (validation_completed v) s)
            (validation_by_scope e v scope p)
    unfolding validation_by_scope apply_baseline_validation check lift
    by_scope-Effect ValidationScope.baseline h =
        modify-Ends _ _
          (framed refl (record { project_id = refl; initialised = refl; accepted_commit = refl }))
    by_scope-Effect ValidationScope.attempt h =
        Ends-mono (λ _ s f. framed refl f) (Handlers.attempt_validation-Framed e v p)
    by_scope-Effect ValidationScope.integration h = integration-Effect h
    by_scope-Effect (ValidationScope.unknown x) h = err-Ends _ _ tt

  only_framed :
      {q : Payload} {r : Result (Unit {0}) × Projection}
      → is_project_initialized q ≡ false
      → Ends (λ _. Unit {0}) (λ _ s. Frame p s) r
      → Ends (λ _. Unit {0}) (λ _ s. Effect p e q s) r
  only_framed other h = Ends-mono (λ _ s f. framed other f) h

  pub apply_payload-Effect : (q : Payload) → payload_validate q ≡ ok tt → Affects p e q
  unfolding apply_payload payload_validate apply_project_initialized apply_validation_completed
  apply_payload-Effect (project_initialized i) v =
      modify-Ends _ _ (initialised i refl refl refl refl)
  apply_payload-Effect (validation_completed q) v = by_scope-Effect q v q.scope refl
  apply_payload-Effect (milestone_started q) v =
      only_framed refl (Handlers.milestone_started-Framed e q p)
  apply_payload-Effect (component_declared q) v =
      only_framed refl (Handlers.component_declared-Framed e q p)
  apply_payload-Effect (decision_required_raised q) v =
      only_framed refl (Handlers.decision_required-Framed e q p)
  apply_payload-Effect (decision_recorded q) v =
      only_framed refl (Handlers.decision_recorded-Framed e q p)
  apply_payload-Effect (risk_recorded q) v = only_framed refl (Handlers.risk_recorded-Framed e q p)
  apply_payload-Effect (risk_resolved q) v = only_framed refl (Handlers.risk_resolved-Framed e q p)
  apply_payload-Effect (health_report_recorded q) v =
      only_framed refl (Handlers.health_report_recorded-Framed e q p)
  apply_payload-Effect (module_catalog_recorded q) v =
      only_framed refl (Handlers.module_catalog_recorded-Framed e q p)
  apply_payload-Effect (task_created q) v = only_framed refl (Handlers.task_created-Framed e q p)
  apply_payload-Effect (work_package_proposed q) v =
      only_framed refl (Handlers.work_package_proposed-Framed e q p)
  apply_payload-Effect (work_package_approved q) v =
      only_framed refl (Handlers.work_package_approved-Framed e q p)
  apply_payload-Effect (task_delegated q) v =
      only_framed refl (Handlers.task_delegated-Framed e q p)
  apply_payload-Effect (attempt_started q) v =
      only_framed refl (Handlers.attempt_started-Framed e q p)
  apply_payload-Effect (candidate_produced q) v =
      only_framed refl (Handlers.candidate_produced-Framed e q p)
  apply_payload-Effect (attempt_blocked q) v =
      only_framed refl (Handlers.attempt_blocked-Framed e q p)
  apply_payload-Effect (attempt_failed q) v =
      only_framed refl (Handlers.attempt_failed-Framed e q p)
  apply_payload-Effect (review_completed q) v =
      only_framed refl (Handlers.review_completed-Framed e q p)
  apply_payload-Effect (change_accepted q) v =
      only_framed refl (Handlers.change_accepted-Framed e q p)
  apply_payload-Effect (change_rejected q) v =
      only_framed refl (Handlers.change_rejected-Framed e q p)
  apply_payload-Effect (escalation_raised q) v =
      only_framed refl (Handlers.escalation_raised-Framed e q p)
  apply_payload-Effect (task_scouting_started q) v =
      only_framed refl (Handlers.transition_task-Framed e q.task_id _ _ p)
  apply_payload-Effect (task_design_started q) v =
      only_framed refl (Handlers.transition_task-Framed e q.task_id _ _ p)
  apply_payload-Effect (integration_started q) v =
      only_framed refl (Handlers.transition_task-Framed e q.task_id _ _ p)
  apply_payload-Effect (integration_validation_started q) v =
      only_framed refl (Handlers.transition_task-Framed e q.task_id _ _ p)
  apply_payload-Effect (requirement_recorded q) v =
      only_framed refl (Handlers.on_discovery-Framed _ p)
  apply_payload-Effect (problem_model_revised q) v =
      only_framed refl (Handlers.on_discovery-Framed _ p)
  apply_payload-Effect (ambiguity_opened q) v = only_framed refl (Handlers.on_discovery-Framed _ p)
  apply_payload-Effect (ambiguity_resolved q) v =
      only_framed refl (Handlers.on_discovery-Framed _ p)
  apply_payload-Effect (product_decision_recorded q) v =
      only_framed refl (Handlers.on_discovery-Framed _ p)
  apply_payload-Effect (specification_readiness_recorded q) v =
      only_framed refl (Handlers.on_discovery-Framed _ p)
  apply_payload-Effect (design_candidate_created q) v = only_framed refl (pure-Framed tt p)
  apply_payload-Effect (review_invocation_started q) v = only_framed refl (pure-Framed tt p)
  apply_payload-Effect (discovery_experiment_started q) v = only_framed refl (pure-Framed tt p)
  apply_payload-Effect (discovery_experiment_completed q) v = only_framed refl (pure-Framed tt p)
  apply_payload-Effect (specification_review_completed q) v = only_framed refl (pure-Framed tt p)
  apply_payload-Effect (lesson_candidate_created q) v = only_framed refl (pure-Framed tt p)
  apply_payload-Effect (lesson_promoted q) v = only_framed refl (pure-Framed tt p)
  apply_payload-Effect (refactoring_epoch_started q) v = only_framed refl (pure-Framed tt p)
  apply_payload-Effect (architecture_reconciled q) v = only_framed refl (pure-Framed tt p)

-- ===== src/State/Apply.antt =====
-- internal/state: `Apply` and its switch (reduce.go), and `Reduce` (projection.go).
use dev_cadence.Prelude.{le_ℤ, ◌==◌, Bool, not, ◌&&◌, Option, none, some, List, [], ◌∷◌}
use dev_cadence.Errs.{Result, ok, err, integrity, internal}
use dev_cadence.Tasks.State.{State}
use dev_cadence.Events.Payloads.{
  Payload, project_initialized, milestone_started, component_declared, design_candidate_created,
  decision_required_raised, decision_recorded, risk_recorded, risk_resolved, health_report_recorded,
  module_catalog_recorded, requirement_recorded, problem_model_revised, ambiguity_opened,
  ambiguity_resolved, product_decision_recorded, discovery_experiment_started,
  discovery_experiment_completed, specification_review_completed, specification_readiness_recorded,
  task_created, task_scouting_started, task_design_started, work_package_proposed,
  work_package_approved, task_delegated, attempt_started, candidate_produced, attempt_blocked,
  attempt_failed, validation_completed, review_invocation_started, review_completed,
  change_accepted, change_rejected, escalation_raised, integration_started,
  integration_validation_started, lesson_candidate_created, lesson_promoted,
  refactoring_epoch_started, architecture_reconciled,
}
use dev_cadence.Events.Envelope.{Event, event_validate}
use dev_cadence.State.Exec.{Exec, pure, ask, lift, check, modify, ◌>>=◌, ◌>>◌}
use dev_cadence.State.Discovery.{
  DiscoveryState, apply_problem_model_revised, apply_ambiguity_opened, apply_ambiguity_resolved,
  apply_product_decision_recorded, apply_requirement_recorded, apply_readiness_recorded,
}
use dev_cadence.State.Projection.{Projection, new_projection}
use dev_cadence.State.Facts.{
  apply_project_initialized, apply_milestone_started, apply_component_declared,
  apply_decision_required, apply_decision_recorded, apply_risk_recorded, apply_risk_resolved,
  apply_health_report_recorded, apply_module_catalog_recorded,
}
use dev_cadence.State.Delivery.{
  apply_task_created, transition_task, apply_work_package_proposed, apply_work_package_approved,
  apply_task_delegated,
}
use dev_cadence.State.Attempts.{
  apply_attempt_started, apply_candidate_produced, apply_attempt_blocked, apply_attempt_failed,
}
use dev_cadence.State.Evidence.{
  apply_validation_completed, apply_review_completed, apply_change_accepted, apply_change_rejected,
  apply_escalation_raised,
}

-- A method of `p.discovery`, which the projection holds by a pointer.
unfoldable pub on_discovery : Exec DiscoveryState (Unit {0}) → Exec Projection (Unit {0})
on_discovery m p = let (r, d) = m p.discovery in (r, record p { discovery = d })

unfoldable pub apply_payload : Event → Payload → Exec Projection (Unit {0})
apply_payload e (project_initialized q) = apply_project_initialized e q
apply_payload e (milestone_started q) = apply_milestone_started q
apply_payload e (requirement_recorded q) = on_discovery (apply_requirement_recorded q)
apply_payload e (component_declared q) = apply_component_declared q
apply_payload e (design_candidate_created q) = pure tt
apply_payload e (decision_required_raised q) = apply_decision_required q
apply_payload e (decision_recorded q) = apply_decision_recorded q
apply_payload e (risk_recorded q) = apply_risk_recorded q
apply_payload e (risk_resolved q) = apply_risk_resolved q
apply_payload e (health_report_recorded q) = apply_health_report_recorded q
apply_payload e (module_catalog_recorded q) = apply_module_catalog_recorded q
apply_payload e (task_created q) = apply_task_created e q
apply_payload e (task_scouting_started q) = transition_task e q.task_id State.scouting ok
apply_payload e (task_design_started q) =
    transition_task e q.task_id State.designing (λ t. ok (record t { blocked_reason = none }))
apply_payload e (work_package_proposed q) = apply_work_package_proposed q
apply_payload e (work_package_approved q) = apply_work_package_approved e q
apply_payload e (task_delegated q) = apply_task_delegated e q
apply_payload e (attempt_started q) = apply_attempt_started e q
apply_payload e (candidate_produced q) = apply_candidate_produced e q
apply_payload e (attempt_blocked q) = apply_attempt_blocked e q
apply_payload e (attempt_failed q) = apply_attempt_failed e q
apply_payload e (validation_completed q) = apply_validation_completed e q
apply_payload e (review_invocation_started q) = pure tt
apply_payload e (review_completed q) = apply_review_completed q
apply_payload e (change_accepted q) = apply_change_accepted e q
apply_payload e (change_rejected q) = apply_change_rejected e q
apply_payload e (escalation_raised q) = apply_escalation_raised e q
apply_payload e (integration_started q) = transition_task e q.task_id State.integrating ok
apply_payload e (integration_validation_started q) =
    transition_task e q.task_id State.integration_validating ok
apply_payload e (problem_model_revised q) = on_discovery (apply_problem_model_revised q)
apply_payload e (ambiguity_opened q) = on_discovery (apply_ambiguity_opened q)
apply_payload e (ambiguity_resolved q) = on_discovery (apply_ambiguity_resolved q)
apply_payload e (product_decision_recorded q) = on_discovery (apply_product_decision_recorded q)
apply_payload e (specification_readiness_recorded q) = on_discovery (apply_readiness_recorded q)
apply_payload e (discovery_experiment_started q) = pure tt
apply_payload e (discovery_experiment_completed q) = pure tt
apply_payload e (specification_review_completed q) = pure tt
apply_payload e (lesson_candidate_created q) = pure tt
apply_payload e (lesson_promoted q) = pure tt
apply_payload e (refactoring_epoch_started q) = pure tt
apply_payload e (architecture_reconciled q) = pure tt

-- The switch of `applyPayload`; no case takes a nil payload.
unfoldable pub apply_body : Event → Option Payload → Exec Projection (Unit {0})
apply_body e none = lift (err internal)
apply_body e (some q) = apply_payload e q

abbrev pub is_initialisation : Event → Bool
is_initialisation e = e.event_type == "ProjectInitialized"

unfoldable pub apply : Event → Exec Projection (Unit {0})
apply e = do
  lift (event_validate e)
  p ← ask
  check (le_ℤ e.seq p.high_watermark) integrity
  check (p.initialised && not (e.project_id == p.project_id)) integrity
  check (p.initialised && is_initialisation e) integrity
  check (not p.initialised && not (is_initialisation e)) integrity
  apply_body e e.payload
  modify λ p. record p { high_watermark = e.seq; last_occurred_at = e.occurred_at }

-- The loop of `Reduce`.
unfoldable pub reduce_from : Projection → List Event → Result Projection
reduce_from p [] = ok p
reduce_from p (e ∷ stream) =
    let (r, p') = apply e p in elim r [ ok _ ↦ reduce_from p' stream | err c ↦ err c ]

unfoldable pub reduce : List Event → Result Projection
unfolding reduce_from
reduce = reduce_from new_projection

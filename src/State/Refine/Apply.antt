-- ===== src/State/Refine/Apply.antt =====
-- `applyPayload` and `Apply` of internal/state/reduce.go beside the abstract machine.
use dev_cadence.Prelude.{
  ◌≡◌, refl, none, some, Option, true, not, ◌==◌, ◌<ℤ◌, le_ℤ-false→lt, eq_iff, arith, leb,
}
use dev_cadence.Errs.{ok, refuse, >>-eq-ok, refuse-eq-ok}
use dev_cadence.Protocol.Records.{actor_validate, schema_version_validate}
use dev_cadence.Events.Payloads.{
  Payload, project_initialized, milestone_started, component_declared, design_candidate_created,
  decision_required_raised, decision_recorded, risk_recorded, risk_resolved, health_report_recorded,
  module_catalog_recorded, requirement_recorded, problem_model_revised, ambiguity_opened,
  ambiguity_resolved, product_decision_recorded, discovery_experiment_started,
  discovery_experiment_completed, specification_review_completed, specification_readiness_recorded,
  task_created, task_scouting_started, task_design_started, work_package_proposed,
  work_package_approved, task_delegated, attempt_started, candidate_produced, attempt_blocked,
  attempt_failed, validation_completed, review_invocation_started, review_completed,
  change_accepted, change_rejected, escalation_raised, integration_started,
  integration_validation_started, lesson_candidate_created, lesson_promoted,
  refactoring_epoch_started, architecture_reconciled, payload_type, payload_validate, registered,
}
use dev_cadence.Events.Envelope.{Event, event_validate, body_validate}
use dev_cadence.State.Exec.{
  Ends, pure, lift, ask_rule, bind_rule, lift_rule, check_rule, modify-Ends, ok-Ends, err-Ends,
  Ends-mono, Ends-both,
}
use dev_cadence.State.Frame.Effects.{Effect, marked-Effect, apply_payload-Effect}
use dev_cadence.State.Projection.{Projection}
use dev_cadence.State.Apply.{apply_payload, apply_body, apply, is_initialisation}
use dev_cadence.State.Core.{core, Move}
use dev_cadence.State.Sound.{Sound}
use dev_cadence.State.Refine.{Refines, still}
use dev_cadence.State.Refine.Facts
use dev_cadence.State.Refine.Delivery
use dev_cadence.State.Refine.Attempts
use dev_cadence.State.Refine.Evidence
use dev_cadence.State.Refine.Acceptance.{change_accepted-Refines}

module _ (p : Projection) (e : Event) (s : Sound (core p)) where
  -- An event that the projection does not read.
  pure-Refines : Refines p (pure tt)
  unfolding pure
  pure-Refines = ok-Ends tt p (still refl)

  pub apply_payload-Refines :
      (q : Payload) → payload_validate q ≡ ok tt → Refines p (apply_payload e q)
  unfolding apply_payload payload_validate
  apply_payload-Refines (project_initialized q) v = Facts.project_initialized-Refines p e q
  apply_payload-Refines (milestone_started q) v = Facts.milestone_started-Refines p q
  apply_payload-Refines (requirement_recorded q) v =
      Facts.on_discovery-Refines p _ (Facts.requirement_recorded-IsAtomic p.discovery q)
  apply_payload-Refines (component_declared q) v = Facts.component_declared-Refines p q
  apply_payload-Refines (decision_required_raised q) v = Facts.decision_required-Refines p q
  apply_payload-Refines (decision_recorded q) v = Facts.decision_recorded-Refines p q
  apply_payload-Refines (risk_recorded q) v = Facts.risk_recorded-Refines p q
  apply_payload-Refines (risk_resolved q) v = Facts.risk_resolved-Refines p q
  apply_payload-Refines (health_report_recorded q) v = Facts.health_report_recorded-Refines p q
  apply_payload-Refines (module_catalog_recorded q) v = Facts.module_catalog_recorded-Refines p q
  apply_payload-Refines (task_created q) v = Delivery.task_created-Refines p e q
  apply_payload-Refines (task_scouting_started q) v =
      Delivery.plain-Refines p e q.task_id _ (λ h. cc)
  apply_payload-Refines (task_design_started q) v = Delivery.design_started-Refines p e q.task_id
  apply_payload-Refines (work_package_proposed q) v = Delivery.work_package_proposed-Refines p e q
  apply_payload-Refines (work_package_approved q) v = Delivery.work_package_approved-Refines p e q
  apply_payload-Refines (task_delegated q) v = Delivery.task_delegated-Refines p e q
  apply_payload-Refines (attempt_started q) v = Attempts.attempt_started-Refines p e s q
  apply_payload-Refines (candidate_produced q) v = Attempts.candidate_produced-Refines p e s q
  apply_payload-Refines (attempt_blocked q) v = Attempts.attempt_blocked-Refines p e s q
  apply_payload-Refines (attempt_failed q) v = Attempts.attempt_failed-Refines p e s q
  apply_payload-Refines (validation_completed q) v = Evidence.validation_completed-Refines p e s q
  apply_payload-Refines (review_completed q) v = Evidence.review_completed-Refines p e s q
  apply_payload-Refines (change_accepted q) v = change_accepted-Refines p e s q v
  apply_payload-Refines (change_rejected q) v = Evidence.change_rejected-Refines p e s q
  apply_payload-Refines (escalation_raised q) v = Evidence.escalation_raised-Refines p e s q
  apply_payload-Refines (integration_started q) v = Delivery.plain-Refines p e q.task_id _ (λ h. cc)
  apply_payload-Refines (integration_validation_started q) v =
      Delivery.plain-Refines p e q.task_id _ (λ h. cc)
  apply_payload-Refines (problem_model_revised q) v =
      Facts.on_discovery-Refines p _ (Facts.problem_model_revised-IsAtomic p.discovery q)
  apply_payload-Refines (ambiguity_opened q) v =
      Facts.on_discovery-Refines p _ (Facts.ambiguity_opened-IsAtomic p.discovery q)
  apply_payload-Refines (ambiguity_resolved q) v =
      Facts.on_discovery-Refines p _ (Facts.ambiguity_resolved-IsAtomic p.discovery q)
  apply_payload-Refines (product_decision_recorded q) v =
      Facts.on_discovery-Refines p _ (Facts.product_decision_recorded-IsAtomic p.discovery q)
  apply_payload-Refines (specification_readiness_recorded q) v =
      Facts.on_discovery-Refines p _ (Facts.readiness_recorded-IsAtomic p.discovery q)
  apply_payload-Refines (design_candidate_created q) v = pure-Refines
  apply_payload-Refines (review_invocation_started q) v = pure-Refines
  apply_payload-Refines (discovery_experiment_started q) v = pure-Refines
  apply_payload-Refines (discovery_experiment_completed q) v = pure-Refines
  apply_payload-Refines (specification_review_completed q) v = pure-Refines
  apply_payload-Refines (lesson_candidate_created q) v = pure-Refines
  apply_payload-Refines (lesson_promoted q) v = pure-Refines
  apply_payload-Refines (refactoring_epoch_started q) v = pure-Refines
  apply_payload-Refines (architecture_reconciled q) v = pure-Refines

-- What a successful `Apply` has checked and done.
pub record Applied (p : Projection) (e : Event) (s : Projection) : Type 0 where
  pub valid : event_validate e ≡ ok tt
  pub newer : p.high_watermark <ℤ e.seq
  pub same_project : p.initialised ≡ true → e.project_id ≡ p.project_id
  pub initialises_once : is_initialisation e ≡ not p.initialised
  pub watermark : s.high_watermark ≡ e.seq
  pub moment : s.last_occurred_at ≡ e.occurred_at
  pub lineage : Move (core p) (core s)
  pub payload : Payload
  pub carried : e.payload ≡ some payload
  pub of_type : (payload_type payload == e.event_type) ≡ true
  pub effect : Effect p e payload s

module _ (p : Projection) (e : Event) (s : Sound (core p)) where
  abbrev Carried : Option Payload → Projection → Type 0
  Carried o t =
      (q : Payload) × (o ≡ some q)
      × ((payload_type q == e.event_type) ≡ true)
      × Move (core p) (core t)
      × Effect p e q t

  body-Ends :
      (o : Option Payload)
      → body_validate e.event_type o ≡ ok tt
      → Ends (λ t. t ≡ p) (λ _ t. Carried o t) (apply_body e o p)
  unfolding body_validate apply_body lift
  body-Ends none v = err-Ends _ _ refl
  body-Ends (some q) v =
      let (same, valid) = >>-eq-ok (refuse (not (payload_type q == e.event_type)) _) _ v in
      Ends-mono
        (λ _ t h. (
          q,
          refl,
          ground (arith, refuse-eq-ok (not (payload_type q == e.event_type)) _ same),
          h.0,
          h.1,
        ))
        (Ends-both (apply_payload-Refines p e s q valid) (apply_payload-Effect p e q valid))

  has_valid_body : event_validate e ≡ ok tt → body_validate e.event_type e.payload ≡ ok tt
  unfolding event_validate
  has_valid_body v =
      let v1 = (>>-eq-ok (schema_version_validate e.schema_version) _ v).1 in
      let v2 = (>>-eq-ok (refuse (e.event_id == "") _) _ v1).1 in
      let v3 = (>>-eq-ok (refuse (e.project_id == "") _) _ v2).1 in
      let v4 = (>>-eq-ok (refuse (not (registered e.event_type)) _) _ v3).1 in
      let v5 = (>>-eq-ok (actor_validate e.actor) _ v4).1 in
      (>>-eq-ok (refuse (leb e.occurred_at 0) _) _ v5).1

  pub apply-Ends : Ends (λ t. t ≡ p) (λ _ t. Applied p e t) (apply e p)
  unfolding apply
  apply-Ends = lift_rule _ _ _ refl λ _ valid. ask_rule _ _ (
      check_rule _ _ _ _ refl λ newer. check_rule _ _ _ _ refl λ foreign.
        check_rule _ _ _ _ refl λ again. check_rule _ _ _ _ refl λ early.
          bind_rule _ _ _ (body-Ends e.payload (has_valid_body valid))
            λ _ t (q, carried, of_type, moved, effect). modify-Ends _ _ (record {
              valid = valid;
              newer = le_ℤ-false→lt e.seq p.high_watermark newer;
              same_project = λ i. ground (arith, eq_iff e.project_id p.project_id);
              initialises_once = ground arith;
              watermark = refl;
              moment = refl;
              lineage = moved;
              payload = q;
              carried = carried;
              of_type = of_type;
              effect = marked-Effect effect;
            }))

-- ===== src/State/Index/Reduction.antt =====
-- `Apply` and `Reduce` of internal/state and the ordered id lists.
use dev_cadence.Prelude.{◌≡◌, ◌∙◌, refl, sym, subst, Option, none, some, List, [], ◌∷◌}
use dev_cadence.Errs.{ok, ok_injective}
use dev_cadence.Protocol.Delivery.{ValidationScope}
use dev_cadence.Events.Evidence.{ValidationCompleted}
use dev_cadence.Events.Payloads.{
  Payload, project_initialized, milestone_started, component_declared, design_candidate_created,
  decision_required_raised, decision_recorded, risk_recorded, risk_resolved, health_report_recorded,
  module_catalog_recorded, requirement_recorded, problem_model_revised, ambiguity_opened,
  ambiguity_resolved, product_decision_recorded, discovery_experiment_started,
  discovery_experiment_completed, specification_review_completed, specification_readiness_recorded,
  task_created, task_scouting_started, task_design_started, work_package_proposed,
  work_package_approved, task_delegated, attempt_started, candidate_produced, attempt_blocked,
  attempt_failed, validation_completed, review_invocation_started, review_completed,
  change_accepted, change_rejected, escalation_raised, integration_started,
  integration_validation_started, lesson_candidate_created, lesson_promoted,
  refactoring_epoch_started, architecture_reconciled,
}
use dev_cadence.Events.Envelope.{Event}
use dev_cadence.State.Exec.{check, ask_rule, bind_rule, lift_rule, check_rule, modify-Ends}
use dev_cadence.State.Projection.{Projection, new_projection}
use dev_cadence.State.Evidence.{validation_by_scope, apply_validation_completed}
use dev_cadence.State.Apply.{apply_payload, apply_body, apply, reduce_from, reduce}
use dev_cadence.State.Replay.{go_on-ok, reduce_from-step}
use dev_cadence.State.Index.{Indexed, Keeps, unchanged, pure-Keeps, lift-Keeps}
use dev_cadence.State.Index.Lists.{IsIndex-empty}
use dev_cadence.State.Index.Handlers
use dev_cadence.State.Index.Others
use dev_cadence.State.Index.Discovery

by_scope-Keeps :
    (e : Event) (q : ValidationCompleted) (scope : ValidationScope)
    → Keeps (validation_by_scope e q scope)
unfolding validation_by_scope check
by_scope-Keeps e q ValidationScope.baseline = Others.baseline_validation-Keeps e q
by_scope-Keeps e q ValidationScope.attempt = Others.attempt_validation-Keeps e q
by_scope-Keeps e q ValidationScope.integration = Others.integration_validation-Keeps e q
by_scope-Keeps e q (ValidationScope.unknown x) = lift-Keeps _

apply_payload-Keeps : (e : Event) (q : Payload) → Keeps (apply_payload e q)
unfolding apply_payload apply_validation_completed
apply_payload-Keeps e (validation_completed q) = by_scope-Keeps e q q.scope
apply_payload-Keeps e (project_initialized q) = Others.project_initialized-Keeps e q
apply_payload-Keeps e (milestone_started q) = Others.milestone_started-Keeps e q
apply_payload-Keeps e (component_declared q) = Handlers.component_declared-Keeps e q
apply_payload-Keeps e (decision_required_raised q) = Handlers.decision_required-Keeps e q
apply_payload-Keeps e (decision_recorded q) = Handlers.decision_recorded-Keeps e q
apply_payload-Keeps e (risk_recorded q) = Handlers.risk_recorded-Keeps e q
apply_payload-Keeps e (risk_resolved q) = Handlers.risk_resolved-Keeps e q
apply_payload-Keeps e (health_report_recorded q) = Others.health_report_recorded-Keeps e q
apply_payload-Keeps e (module_catalog_recorded q) = Others.module_catalog_recorded-Keeps e q
apply_payload-Keeps e (task_created q) = Handlers.task_created-Keeps e q
apply_payload-Keeps e (work_package_proposed q) = Others.work_package_proposed-Keeps e q
apply_payload-Keeps e (work_package_approved q) = Others.work_package_approved-Keeps e q
apply_payload-Keeps e (task_delegated q) = Others.task_delegated-Keeps e q
apply_payload-Keeps e (attempt_started q) = Handlers.attempt_started-Keeps e q
apply_payload-Keeps e (candidate_produced q) = Others.candidate_produced-Keeps e q
apply_payload-Keeps e (attempt_blocked q) = Others.attempt_blocked-Keeps e q
apply_payload-Keeps e (attempt_failed q) = Others.attempt_failed-Keeps e q
apply_payload-Keeps e (review_completed q) = Others.review_completed-Keeps e q
apply_payload-Keeps e (change_accepted q) = Others.change_accepted-Keeps e q
apply_payload-Keeps e (change_rejected q) = Others.change_rejected-Keeps e q
apply_payload-Keeps e (escalation_raised q) = Others.escalation_raised-Keeps e q
apply_payload-Keeps e (task_scouting_started q) = Handlers.transition_task-Keeps e q.task_id _ _
apply_payload-Keeps e (task_design_started q) = Handlers.transition_task-Keeps e q.task_id _ _
apply_payload-Keeps e (integration_started q) = Handlers.transition_task-Keeps e q.task_id _ _
apply_payload-Keeps e (integration_validation_started q) =
    Handlers.transition_task-Keeps e q.task_id _ _
apply_payload-Keeps e (requirement_recorded q) =
    Discovery.on_discovery-Keeps _ (Discovery.requirement_recorded-Lists q)
apply_payload-Keeps e (problem_model_revised q) =
    Discovery.on_discovery-Keeps _ (Discovery.problem_model_revised-Lists q)
apply_payload-Keeps e (ambiguity_opened q) =
    Discovery.on_discovery-Keeps _ (Discovery.ambiguity_opened-Lists q)
apply_payload-Keeps e (ambiguity_resolved q) =
    Discovery.on_discovery-Keeps _ (Discovery.ambiguity_resolved-Lists q)
apply_payload-Keeps e (product_decision_recorded q) =
    Discovery.on_discovery-Keeps _ (Discovery.product_decision_recorded-Lists q)
apply_payload-Keeps e (specification_readiness_recorded q) =
    Discovery.on_discovery-Keeps _ (Discovery.readiness_recorded-Lists q)
apply_payload-Keeps e (design_candidate_created q) = pure-Keeps tt
apply_payload-Keeps e (review_invocation_started q) = pure-Keeps tt
apply_payload-Keeps e (discovery_experiment_started q) = pure-Keeps tt
apply_payload-Keeps e (discovery_experiment_completed q) = pure-Keeps tt
apply_payload-Keeps e (specification_review_completed q) = pure-Keeps tt
apply_payload-Keeps e (lesson_candidate_created q) = pure-Keeps tt
apply_payload-Keeps e (lesson_promoted q) = pure-Keeps tt
apply_payload-Keeps e (refactoring_epoch_started q) = pure-Keeps tt
apply_payload-Keeps e (architecture_reconciled q) = pure-Keeps tt

apply_body-Keeps : (e : Event) (o : Option Payload) → Keeps (apply_body e o)
unfolding apply_body
apply_body-Keeps e none = lift-Keeps _
apply_body-Keeps e (some q) = apply_payload-Keeps e q

apply-Keeps : (e : Event) → Keeps (apply e)
unfolding apply
apply-Keeps e p h = lift_rule _ _ _ tt λ _ _. ask_rule _ _ (
    check_rule _ _ _ _ tt λ _. check_rule _ _ _ _ tt λ _. check_rule _ _ _ _ tt λ _.
      check_rule _ _ _ _ tt λ _.
        bind_rule _ _ _ (apply_body-Keeps e e.payload p h)
          λ _ t i. modify-Ends _ _ (unchanged t _ i refl refl refl refl refl refl refl refl refl))

reduce_from-Indexed :
    (p : Projection) (es : List Event) {q : Projection}
    → Indexed p
    → reduce_from p es ≡ ok q
    → Indexed q
unfolding reduce_from
reduce_from-Indexed p [] i h = subst Indexed (ok_injective h) i
reduce_from-Indexed p (e ∷ es) i h =
    let (done, rest) = go_on-ok (apply e p) es (sym (reduce_from-step p e es) ∙ h) in
    reduce_from-Indexed (apply e p).1 es ((apply-Keeps e p i).on_ok tt done) rest

-- In every projection that `Reduce` returns, the ordered lists of tasks, risks, required decisions,
-- components and open ambiguities name exactly the keys of their maps, each once.
pub reduce-Indexed : (es : List Event) (q : Projection) → reduce es ≡ ok q → Indexed q
unfolding reduce
reduce-Indexed es q h =
    reduce_from-Indexed new_projection es
      (record {
        tasks = IsIndex-empty;
        risks = IsIndex-empty;
        decisions = IsIndex-empty;
        components = IsIndex-empty;
        ambiguities = IsIndex-empty;
      })
      h

-- ===== src/State/Index/Handlers.antt =====
-- The handlers of internal/state/reduce.go that write to a map with an ordered id list, or move a task.
use dev_cadence.Prelude.{
  List, [], ◌∷◌, ◌++◌, String, ◌≡◌, refl, sym, subst, Bool, true, false, ◌==◌, some, is_some,
  if◌then◌else◌,
}
use dev_cadence.Dict.{Dict, get, put}
use dev_cadence.Errs.{Result}
use dev_cadence.Tasks.State.{State}
use dev_cadence.Tasks.Task.{Task}
use dev_cadence.Tasks.Attempt.{Attempt, AttemptStatus}
use dev_cadence.Events.Envelope.{Event}
use dev_cadence.Events.Project.{
  ComponentDeclared, DecisionRequiredRaised, DecisionRecorded, RiskRecorded, RiskResolved,
}
use dev_cadence.Events.Planning.{TaskCreated}
use dev_cadence.Events.Execution.{AttemptStarted}
use dev_cadence.State.Exec.{
  Ends, ask_rule, lift_rule, check_rule, modify_rule, modify-Ends, Ends-mono,
}
use dev_cadence.State.Projection.{Projection}
use dev_cadence.State.Facts.{
  apply_component_declared, apply_decision_required, apply_decision_recorded, apply_risk_recorded,
  apply_risk_resolved,
}
use dev_cadence.State.Delivery.{transition_task, apply_task_created}
use dev_cadence.State.Attempts.{finish_attempt, apply_attempt_started}
use dev_cadence.State.Lineage.Outcomes.{task_of-eq-ok}
use dev_cadence.State.Refine.{transition-Ends}
use dev_cadence.State.Index.{Indexed, Keeps, keeping}
use dev_cadence.State.Index.Lists.{IsIndex, IsIndex-add, IsIndex-rewrite, IsIndex-remove}

if-Indexed : (b : Bool) (p q : Projection) → Indexed p → Indexed q → Indexed (if b then p else q)
if-Indexed true p q h k = h
if-Indexed false p q h k = k

-- Writing a task that is there.
task_rewritten :
    (p : Projection) (id : String) (t u : Task)
    → get p.tasks id ≡ some t
    → Indexed p
    → Indexed (record p { tasks = put p.tasks id u })
task_rewritten p id t u there h = record {
  tasks = IsIndex-rewrite h.tasks id u (rw there);
  risks = h.risks;
  decisions = h.decisions;
  components = h.components;
  ambiguities = h.ambiguities;
}

-- What holds of the state that an error leaves does not matter here.
ignoring :
    {E : Projection → Type 0} {Q : Unit {0} → Projection → Type 0}
    {r : Result (Unit {0}) × Projection}
    → Ends E Q r
    → Ends (λ _. Unit {0}) Q r
ignoring h = record { on_ok = h.on_ok; on_err = λ c e. tt }

-- A component is listed when it is declared for the first time.
declared :
    {V : Type 0} {m : Dict V} {ids : List String} (i : IsIndex m ids) (id : String) (v : V)
    (b : Bool)
    → is_some (get m id) ≡ b
    → IsIndex (put m id v) (if b then ids else ids ++ id ∷ [])
declared i id v true h = IsIndex-rewrite i id v h
declared i id v false h = IsIndex-add i id v h

module _ (e : Event) where
  pub transition_task-Keeps :
      (id : String) (to : State) (mutate : Task → Result Task)
      → Keeps (transition_task e id to mutate)
  transition_task-Keeps id to mutate p h =
      Ends-mono (λ _ s t. subst Indexed (sym t.result) (task_rewritten p id _ _ t.was_there h))
        (ignoring (transition-Ends e id to mutate p))

  pub finish_attempt-Keeps :
      (task_id id : String) (to : AttemptStatus) (mutate : Attempt → Attempt)
      → Keeps (finish_attempt e task_id id to mutate)
  unfolding finish_attempt
  finish_attempt-Keeps task_id id to mutate = search (keeping) depth 16

  pub task_created-Keeps : (q : TaskCreated) → Keeps (apply_task_created e q)
  unfolding apply_task_created
  task_created-Keeps q p h = ask_rule _ _ (
      check_rule _ _ _ _ tt λ new. check_rule _ _ _ _ tt λ _. lift_rule _ _ _ tt λ _ _.
        modify-Ends _ _ (record {
          tasks = IsIndex-add h.tasks q.task_id _ new;
          risks = h.risks;
          decisions = h.decisions;
          components = h.components;
          ambiguities = h.ambiguities;
        }))

  pub attempt_started-Keeps : (q : AttemptStarted) → Keeps (apply_attempt_started e q)
  unfolding apply_attempt_started
  attempt_started-Keeps q p h = ask_rule _ _ (
      lift_rule _ _ _ tt λ t there. check_rule _ _ _ _ tt λ _. check_rule _ _ _ _ tt λ _.
        check_rule _ _ _ _ tt λ _. check_rule _ _ _ _ tt λ _. lift_rule _ _ _ tt λ _ _.
          lift_rule _ _ _ tt λ _ _. modify-Ends _ _ (record {
            tasks = IsIndex-rewrite h.tasks q.task_id _ (rw (task_of-eq-ok p q.task_id there));
            risks = h.risks;
            decisions = h.decisions;
            components = h.components;
            ambiguities = h.ambiguities;
          }))

  pub component_declared-Keeps : (q : ComponentDeclared) → Keeps (apply_component_declared q)
  unfolding apply_component_declared
  component_declared-Keeps q p h = modify-Ends _ _ (record {
    tasks = h.tasks;
    risks = h.risks;
    decisions = h.decisions;
    components =
        declared h.components q.component_id _ (is_some (get p.components q.component_id)) refl;
    ambiguities = h.ambiguities;
  })

  pub decision_required-Keeps : (q : DecisionRequiredRaised) → Keeps (apply_decision_required q)
  unfolding apply_decision_required
  decision_required-Keeps q p h = ask_rule _ _ (
      check_rule _ _ _ _ tt λ new. modify-Ends _ _ (record {
        tasks = h.tasks;
        risks = h.risks;
        decisions = IsIndex-add h.decisions q.decision_required_id _ new;
        components = h.components;
        ambiguities = h.ambiguities;
      }))

  pub decision_recorded-Keeps : (q : DecisionRecorded) → Keeps (apply_decision_recorded q)
  unfolding apply_decision_recorded
  decision_recorded-Keeps q p h = ask_rule _ _ (
      check_rule _ _ _ _ tt λ _. check_rule _ _ _ _ tt λ _. modify_rule _ _ _ (
        modify-Ends _ _ (
          appended (
            if-Indexed (q.resolves_decision_required == "") _ _ h (record {
              tasks = h.tasks;
              risks = h.risks;
              decisions = IsIndex-remove h.decisions q.resolves_decision_required;
              components = h.components;
              ambiguities = h.ambiguities;
            })))))
    where
      appended :
          {s : Projection} {ids : List String}
          → Indexed s
          → Indexed (record s { active_decisions = ids })
      appended {s} i = record {
        tasks = i.tasks;
        risks = i.risks;
        decisions = i.decisions;
        components = i.components;
        ambiguities = i.ambiguities;
      }

  pub risk_recorded-Keeps : (q : RiskRecorded) → Keeps (apply_risk_recorded q)
  unfolding apply_risk_recorded
  risk_recorded-Keeps q p h = ask_rule _ _ (
      check_rule _ _ _ _ tt λ new. modify-Ends _ _ (record {
        tasks = h.tasks;
        risks = IsIndex-add h.risks q.risk_id _ new;
        decisions = h.decisions;
        components = h.components;
        ambiguities = h.ambiguities;
      }))

  pub risk_resolved-Keeps : (q : RiskResolved) → Keeps (apply_risk_resolved q)
  unfolding apply_risk_resolved
  risk_resolved-Keeps q p h = ask_rule _ _ (
      check_rule _ _ _ _ tt λ _. modify-Ends _ _ (record {
        tasks = h.tasks;
        risks = IsIndex-remove h.risks q.risk_id;
        decisions = h.decisions;
        components = h.components;
        ambiguities = h.ambiguities;
      }))

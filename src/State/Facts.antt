-- ===== src/State/Facts.antt =====
-- internal/state/reduce.go: the events about the project, its decisions and its risks.
use Prim.Native.String.{compare}
use Prim.Native.Nat.{Ordering}
use dev_cadence.Prelude.{
  String, ◌==◌, true, not, ◌&&◌, none, some, is_some, List, [], ◌∷◌, ◌++◌, contains, if◌then◌else◌,
}
use dev_cadence.Dict.{get, put, delete}
use dev_cadence.Errs.{conflict, integrity}
use dev_cadence.Events.Project.{
  ProjectInitialized, MilestoneStarted, ComponentDeclared, DecisionRequiredRaised, DecisionRecorded,
  RiskRecorded, RiskResolved, HealthReportRecorded, ModuleCatalogRecorded,
}
use dev_cadence.Events.Envelope.{Event}
use dev_cadence.State.Exec.{Exec, ask, check, modify, ◌>>=◌, ◌>>◌}
use dev_cadence.State.Discovery.{remove_string}
use dev_cadence.State.Projection.{Projection}

-- `sortedCopy`. Equal texts cannot be told apart, so every sort gives the same list.
unfoldable pub insert_sorted : String → List String → List String
insert_sorted s [] = s ∷ []
insert_sorted s (t ∷ ts) =
    let rest = insert_sorted s ts in elim (compare s t) [ Ordering.gt ↦ t ∷ rest | _ ↦ s ∷ t ∷ ts ]

unfoldable pub sorted_copy : List String → List String
unfolding insert_sorted
sorted_copy [] = []
sorted_copy (s ∷ ss) = insert_sorted s (sorted_copy ss)

unfoldable pub apply_project_initialized : Event → ProjectInitialized → Exec Projection (Unit {0})
apply_project_initialized e payload = modify λ p. record p {
  initialised = true;
  project_id = e.project_id;
  name = payload.name;
  accepted_commit = payload.accepted_commit;
  branch = payload.branch;
  repository_path = payload.repository_path;
  vision_ref = payload.vision_ref;
  current_outcome = payload.current_outcome;
  milestone = record {
    id = payload.milestone_id;
    title = payload.milestone_title;
    status = "";
    completed_tasks = 0;
    total_tasks = 0;
  };
  active_invariants = sorted_copy payload.active_invariants;
}

unfoldable pub apply_milestone_started : MilestoneStarted → Exec Projection (Unit {0})
apply_milestone_started payload = modify λ p. record p {
  milestone = record {
    id = payload.milestone_id;
    title = payload.title;
    status = payload.status;
    completed_tasks = 0;
    total_tasks = 0;
  };
}

unfoldable pub apply_component_declared : ComponentDeclared → Exec Projection (Unit {0})
apply_component_declared payload = modify λ p. record p {
  component_ids =
      if is_some (get p.components payload.component_id)
      then p.component_ids
      else p.component_ids ++ payload.component_id ∷ [];
  components = put p.components payload.component_id (record {
    id = payload.component_id;
    responsibility = if payload.responsibility == "" then none else some payload.responsibility;
    status = payload.status;
    contract_state = payload.contract_state;
    evidence_refs = payload.evidence_refs;
  });
}

unfoldable pub apply_decision_required : DecisionRequiredRaised → Exec Projection (Unit {0})
apply_decision_required payload = do
  p ← ask
  check (is_some (get p.decisions_required payload.decision_required_id)) conflict
  modify λ p. record p {
    decisions_required = put p.decisions_required payload.decision_required_id (record {
      id = payload.decision_required_id;
      question = payload.question;
      authority = payload.authority;
      evidence_refs = payload.evidence_refs;
    });
    decision_required_ids = p.decision_required_ids ++ payload.decision_required_id ∷ [];
  }

unfoldable pub apply_decision_recorded : DecisionRecorded → Exec Projection (Unit {0})
apply_decision_recorded payload = do
  p ← ask
  check
      (not (payload.resolves_decision_required == "")
        && not (is_some (get p.decisions_required payload.resolves_decision_required)))
      integrity
  check (contains p.active_decisions payload.decision_id) conflict
  modify λ p. if payload.resolves_decision_required == "" then p else record p {
    decisions_required = delete p.decisions_required payload.resolves_decision_required;
    decision_required_ids =
        remove_string p.decision_required_ids payload.resolves_decision_required;
  }
  modify λ p. record p { active_decisions = p.active_decisions ++ payload.decision_id ∷ [] }

unfoldable pub apply_risk_recorded : RiskRecorded → Exec Projection (Unit {0})
apply_risk_recorded payload = do
  p ← ask
  check (is_some (get p.risks payload.risk_id)) conflict
  modify λ p. record p {
    risks = put p.risks payload.risk_id (record {
      id = payload.risk_id;
      severity = payload.severity;
      statement = payload.statement;
      evidence_refs = payload.evidence_refs;
    });
    risk_ids = p.risk_ids ++ payload.risk_id ∷ [];
  }

unfoldable pub apply_risk_resolved : RiskResolved → Exec Projection (Unit {0})
apply_risk_resolved payload = do
  p ← ask
  check (not (is_some (get p.risks payload.risk_id))) integrity
  modify λ p. record p {
    risks = delete p.risks payload.risk_id;
    risk_ids = remove_string p.risk_ids payload.risk_id;
  }

unfoldable pub apply_health_report_recorded : HealthReportRecorded → Exec Projection (Unit {0})
apply_health_report_recorded payload = modify λ p. record p {
  health = record {
    status = payload.status;
    last_report_id = some payload.report_id;
    known_debt = payload.known_debt;
  };
}

unfoldable pub apply_module_catalog_recorded : ModuleCatalogRecorded → Exec Projection (Unit {0})
apply_module_catalog_recorded payload = modify λ p. record p { modules = payload.modules }

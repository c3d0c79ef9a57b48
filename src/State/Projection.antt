-- ===== src/State/Projection.antt =====
-- internal/state/projection.go: the projection, the empty one and the lookups of tasks and attempts.
-- A pointer to a task or an attempt is held by its map alone, so writing through it is a `put`.
use dev_cadence.Prelude.{ℤ, pos, Bool, false, String, Option, none, some, List, []}
use dev_cadence.Dict.{Dict, get}
use dev_cadence.Errs.{Result, ok, err, not_found}
use dev_cadence.Protocol.Project.{ValidationStatus, HealthStatus}
use dev_cadence.Protocol.Records.{
  Timestamp, MilestoneState, ComponentState, ValidationState, HealthState, Risk, DecisionRequired,
  SemanticChange,
}
use dev_cadence.Protocol.Modules.{ModuleDefinition}
use dev_cadence.Tasks.Task.{Task}
use dev_cadence.Tasks.Attempt.{Attempt}
use dev_cadence.State.Discovery.{DiscoveryState, new_discovery_state}

-- `evidenceRef` of lineage.go.
pub record EvidenceRef : Type 0 where
  pub scope : String
  pub task_id : String
  pub attempt_id : String
  pub commit : String

pub record Projection : Type 0 where
  pub project_id : String
  pub name : String
  pub initialised : Bool
  pub high_watermark : ℤ
  pub last_occurred_at : Timestamp
  pub accepted_commit : String
  pub branch : String
  pub repository_path : String
  pub vision_ref : String
  pub current_outcome : String
  pub milestone : MilestoneState
  pub active_invariants : List String
  pub active_decisions : List String
  pub validation : ValidationState
  pub health : HealthState
  pub components : Dict ComponentState
  pub component_ids : List String
  pub modules : List ModuleDefinition
  pub risks : Dict Risk
  pub risk_ids : List String
  pub decisions_required : Dict DecisionRequired
  pub decision_required_ids : List String
  pub tasks : Dict Task
  pub task_ids : List String
  pub attempts : Dict Attempt
  pub attempts_by_task : Dict (List String)
  pub semantic_changes : List SemanticChange
  pub aliases : Dict String
  pub discovery : DiscoveryState
  pub validations : Dict EvidenceRef
  pub reviews : Dict EvidenceRef
  pub proposals : Dict ℤ

-- `New`.
abbrev pub new_projection : Projection
new_projection = record {
  project_id = "";
  name = "";
  initialised = false;
  high_watermark = pos 0;
  last_occurred_at = 0;
  accepted_commit = "";
  branch = "";
  repository_path = "";
  vision_ref = "";
  current_outcome = "";
  milestone = record { id = ""; title = ""; status = ""; completed_tasks = 0; total_tasks = 0 };
  active_invariants = [];
  active_decisions = [];
  validation = record {
    status = ValidationStatus.undetermined;
    accepted_commit_verified = false;
    last_full_validation_id = none;
  };
  health = record { status = HealthStatus.undetermined; last_report_id = none; known_debt = [] };
  components = [];
  component_ids = [];
  modules = [];
  risks = [];
  risk_ids = [];
  decisions_required = [];
  decision_required_ids = [];
  tasks = [];
  task_ids = [];
  attempts = [];
  attempts_by_task = [];
  semantic_changes = [];
  aliases = [];
  discovery = new_discovery_state;
  validations = [];
  reviews = [];
  proposals = [];
}

-- `v, ok := m[k]; if !ok { return NotFound }`
unfoldable pub found {ℓ} : {V : Type ℓ} → Option V → Result V
found none = err not_found
found (some v) = ok v

-- `Projection.Task`.
unfoldable pub task_of : Projection → String → Result Task
unfolding found
task_of p id = found (get p.tasks id)

-- `Projection.Attempt`.
unfoldable pub attempt_of : Projection → String → Result Attempt
unfolding found
attempt_of p id = found (get p.attempts id)

-- A missing key of a map of lists reads as nil.
abbrev pub listed : Option (List String) → List String
listed none = []
listed (some ids) = ids

-- ===== src/Protocol/Records.antt =====
-- The records of internal/protocol that events and state carry (protocol.go, project_state.go).
use dev_cadence.Prelude.{ℤ, ℕ, String, Bool, Option, List, [], ◌∷◌, ◌==◌, not}
use dev_cadence.Errs.{Result, ok, refuse, ◌>>◌, invalid_argument, schema_version_unsupported}
use dev_cadence.Protocol.Project.{
  ActorKind, actor_kind_valid, Severity, ValidationStatus, HealthStatus, ContractState,
}
use dev_cadence.Protocol.Delivery.{DecisionAuthority}

-- A `Timestamp` is the microseconds since Go's zero instant, so `IsZero` is `== 0`.
abbrev pub Timestamp : Type 0
Timestamp = ℕ

abbrev pub schema_version_1 : String
schema_version_1 = "1.0"

unfoldable pub schema_version_validate : String → Result (Unit {0})
schema_version_validate v = do
  refuse (v == "") invalid_argument
  refuse (not (v == schema_version_1)) schema_version_unsupported

pub record Actor : Type 0 where
  pub kind : ActorKind
  pub id : String

unfoldable pub actor_validate : Actor → Result (Unit {0})
actor_validate a = do
  refuse (not (actor_kind_valid a.kind)) invalid_argument
  refuse (a.id == "") invalid_argument

pub record ArtifactRef : Type 0 where
  pub id : String
  pub kind : String
  pub locator : String
  pub media_type : String
  pub digest : String
  pub size_bytes : ℤ
  pub truncated : Bool

unfoldable pub artifact_validate : ArtifactRef → Result (Unit {0})
artifact_validate r = do
  refuse (r.id == "") invalid_argument
  refuse (r.locator == "") invalid_argument

-- `for _, a := range artifacts { if err := a.Validate(); err != nil { return err } }`
unfoldable pub artifacts_validate : List ArtifactRef → Result (Unit {0})
unfolding artifact_validate
artifacts_validate [] = ok tt
artifacts_validate (a ∷ rest) = do artifact_validate a; artifacts_validate rest

pub record MilestoneState : Type 0 where
  pub id : String
  pub title : String
  pub status : String
  pub completed_tasks : ℕ
  pub total_tasks : ℕ

pub record ComponentState : Type 0 where
  pub id : String
  pub responsibility : Option String
  pub status : String
  pub contract_state : ContractState
  pub evidence_refs : List String

pub record ValidationState : Type 0 where
  pub status : ValidationStatus
  pub accepted_commit_verified : Bool
  pub last_full_validation_id : Option String

pub record HealthState : Type 0 where
  pub status : HealthStatus
  pub last_report_id : Option String
  pub known_debt : List String

pub record Risk : Type 0 where
  pub id : String
  pub severity : Severity
  pub statement : String
  pub evidence_refs : List String

pub record DecisionRequired : Type 0 where
  pub id : String
  pub question : String
  pub authority : DecisionAuthority
  pub evidence_refs : List String

pub record SemanticChange : Type 0 where
  pub task_id : String
  pub commit : Option String
  pub summary : String

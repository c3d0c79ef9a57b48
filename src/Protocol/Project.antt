-- ===== src/Protocol/Project.antt =====
-- The classifications of project state (internal/protocol/project_state.go).
-- `unknown s` is a text `s` that is none of the constants.
use dev_cadence.Prelude.{Bool, true, false, String, ◌==◌}

pub data ContractState : Type 0 where
  stable evolving deprecated contract_unknown : ContractState
  unknown : String → ContractState

unfoldable pub contract_state_valid : ContractState → Bool
contract_state_valid (ContractState.unknown s) = false
contract_state_valid _ = true

-- `c == ""`
unfoldable pub contract_state_unset : ContractState → Bool
contract_state_unset (ContractState.unknown s) = s == ""
contract_state_unset _ = false

pub data ValidationStatus : Type 0 where
  green yellow red undetermined : ValidationStatus
  unknown : String → ValidationStatus

pub data HealthStatus : Type 0 where
  green watch refactor_due undetermined : HealthStatus
  unknown : String → HealthStatus

unfoldable pub health_status_valid : HealthStatus → Bool
health_status_valid (HealthStatus.unknown s) = false
health_status_valid _ = true

pub data Severity : Type 0 where
  info low medium high critical : Severity
  unknown : String → Severity

unfoldable pub valid_risk : Severity → Bool
valid_risk Severity.info = false
valid_risk (Severity.unknown s) = false
valid_risk _ = true

pub data ActorKind : Type 0 where
  human principal control_plane local_agent consultant : ActorKind
  tool : ActorKind
  unknown : String → ActorKind

unfoldable pub actor_kind_valid : ActorKind → Bool
actor_kind_valid (ActorKind.unknown s) = false
actor_kind_valid _ = true

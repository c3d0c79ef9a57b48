-- ===== src/Protocol/Discovery.antt =====
-- The classifications of discovery facts (internal/protocol: requirement.go, ambiguity.go,
-- specification.go, discovery.go).
-- `unknown s` is a text `s` that is none of the constants.
use dev_cadence.Prelude.{Bool, true, false, String, ◌==◌}

pub data RequirementKind : Type 0 where
  functional non_functional constraint non_goal : RequirementKind
  unknown : String → RequirementKind

unfoldable pub requirement_kind_valid : RequirementKind → Bool
requirement_kind_valid (RequirementKind.unknown s) = false
requirement_kind_valid _ = true

-- `c == ""`
unfoldable pub requirement_kind_unset : RequirementKind → Bool
requirement_kind_unset (RequirementKind.unknown s) = s == ""
requirement_kind_unset _ = false

pub data RequirementStrength : Type 0 where
  must should may : RequirementStrength
  unknown : String → RequirementStrength

unfoldable pub requirement_strength_valid : RequirementStrength → Bool
requirement_strength_valid (RequirementStrength.unknown s) = false
requirement_strength_valid _ = true

-- `c == ""`
unfoldable pub requirement_strength_unset : RequirementStrength → Bool
requirement_strength_unset (RequirementStrength.unknown s) = s == ""
requirement_strength_unset _ = false

pub data RequirementStatus : Type 0 where
  confirmed evidence_backed proposed assumed deferred : RequirementStatus
  rejected superseded : RequirementStatus
  unknown : String → RequirementStatus

unfoldable pub requirement_status_valid : RequirementStatus → Bool
requirement_status_valid (RequirementStatus.unknown s) = false
requirement_status_valid _ = true

pub data SourceType : Type 0 where
  human external_fact repository_fact experiment policy : SourceType
  inference product_decision human_statement principal_inference : SourceType
  unknown : String → SourceType

unfoldable pub valid_requirement_source : SourceType → Bool
valid_requirement_source SourceType.product_decision = true
valid_requirement_source SourceType.human_statement = true
valid_requirement_source SourceType.external_fact = true
valid_requirement_source SourceType.repository_fact = true
valid_requirement_source SourceType.experiment = true
valid_requirement_source SourceType.principal_inference = true
valid_requirement_source SourceType.policy = true
valid_requirement_source _ = false

pub data ProductDecisionStatus : Type 0 where
  confirmed superseded withdrawn : ProductDecisionStatus
  unknown : String → ProductDecisionStatus

unfoldable pub product_decision_status_valid : ProductDecisionStatus → Bool
product_decision_status_valid (ProductDecisionStatus.unknown s) = false
product_decision_status_valid _ = true

pub data ResolutionAuthority : Type 0 where
  by_human by_repository_tool by_external_research by_experiment by_consultant : ResolutionAuthority
  by_principal : ResolutionAuthority
  unknown : String → ResolutionAuthority

unfoldable pub resolution_authority_valid : ResolutionAuthority → Bool
resolution_authority_valid (ResolutionAuthority.unknown s) = false
resolution_authority_valid _ = true

pub data ImpactLevel : Type 0 where
  low medium high critical : ImpactLevel
  unknown : String → ImpactLevel

unfoldable pub impact_level_valid : ImpactLevel → Bool
impact_level_valid (ImpactLevel.unknown s) = false
impact_level_valid _ = true

pub data ExperimentStatus : Type 0 where
  planned running completed inconclusive cancelled : ExperimentStatus
  unknown : String → ExperimentStatus

unfoldable pub experiment_status_valid : ExperimentStatus → Bool
experiment_status_valid (ExperimentStatus.unknown s) = false
experiment_status_valid _ = true

pub data ReadinessVerdict : Type 0 where
  not_ready ready_for_architecture ready_with_explicit_risks : ReadinessVerdict
  unknown : String → ReadinessVerdict

unfoldable pub readiness_verdict_valid : ReadinessVerdict → Bool
readiness_verdict_valid (ReadinessVerdict.unknown s) = false
readiness_verdict_valid _ = true

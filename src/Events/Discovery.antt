-- ===== src/Events/Discovery.antt =====
-- The events of discovery (internal/events: payloads_discovery.go and RequirementRecorded of
-- payloads_project.go): the payloads and their `Validate`.
use dev_cadence.Prelude.{String, ◌==◌, Bool, true, false, not, ◌||◌, ◌&&◌, ℤ, pos, lt_ℤ, List}
use dev_cadence.Errs.{Result, refuse, ◌>>◌, invalid_argument, integrity}
use dev_cadence.Protocol.Discovery.{
  RequirementKind, RequirementStrength, RequirementStatus, SourceType, ProductDecisionStatus,
  ResolutionAuthority, ImpactLevel, ExperimentStatus, ReadinessVerdict, requirement_status_valid,
  valid_requirement_source, requirement_kind_unset, requirement_kind_valid,
  requirement_strength_unset, requirement_strength_valid, resolution_authority_valid,
  impact_level_valid, product_decision_status_valid, experiment_status_valid,
  readiness_verdict_valid,
}

pub data AmbiguityOutcome : Type 0 where
  resolved explicitly_deferred : AmbiguityOutcome
  unknown : String → AmbiguityOutcome

unfoldable pub ambiguity_outcome_valid : AmbiguityOutcome → Bool
ambiguity_outcome_valid (AmbiguityOutcome.unknown s) = false
ambiguity_outcome_valid _ = true

abbrev pub is_deferred : AmbiguityOutcome → Bool
is_deferred explicitly_deferred = true
is_deferred _ = false

abbrev pub is_confirmed : RequirementStatus → Bool
is_confirmed RequirementStatus.confirmed = true
is_confirmed _ = false

-- The sources that carry a human's authority.
abbrev pub from_human : SourceType → Bool
from_human SourceType.product_decision = true
from_human SourceType.human_statement = true
from_human _ = false

abbrev pub is_unfinished : ExperimentStatus → Bool
is_unfinished ExperimentStatus.planned = true
is_unfinished ExperimentStatus.running = true
is_unfinished _ = false

abbrev pub is_completed : ExperimentStatus → Bool
is_completed ExperimentStatus.completed = true
is_completed _ = false

pub record RequirementRecorded : Type 0 where
  pub requirement_id : String
  pub statement : String
  pub kind : RequirementKind
  pub strength : RequirementStrength
  pub status : RequirementStatus
  pub source_type : SourceType
  pub source_ref : String
  pub record_digest : String

unfoldable pub requirement_recorded_validate : RequirementRecorded → Result (Unit {0})
requirement_recorded_validate p = do
  refuse ((p.requirement_id == "") || (p.statement == "")) invalid_argument
  refuse (not (requirement_status_valid p.status)) invalid_argument
  refuse (not (valid_requirement_source p.source_type)) invalid_argument
  refuse (not (requirement_kind_unset p.kind) && not (requirement_kind_valid p.kind))
      invalid_argument
  refuse
      (not (requirement_strength_unset p.strength) && not (requirement_strength_valid p.strength))
      invalid_argument
  refuse (is_confirmed p.status && not (from_human p.source_type)) invalid_argument
  refuse (is_confirmed p.status && (p.source_ref == "")) invalid_argument

pub record ProblemModelRevised : Type 0 where
  pub problem_model_id : String
  pub revision : ℤ
  pub record_digest : String
  pub summary : String
  pub material_assumptions_unverified : ℤ
  pub ambiguity_ledger_id : String
  pub human_reflection_revision : ℤ

unfoldable pub problem_model_revised_validate : ProblemModelRevised → Result (Unit {0})
problem_model_revised_validate p = do
  refuse ((p.problem_model_id == "") || (p.record_digest == "") || (p.summary == ""))
      invalid_argument
  refuse (lt_ℤ p.revision (pos 1)) invalid_argument
  refuse (lt_ℤ p.material_assumptions_unverified (pos 0)) invalid_argument
  refuse (lt_ℤ p.human_reflection_revision (pos 0) || lt_ℤ p.revision p.human_reflection_revision)
      integrity

pub record AmbiguityOpened : Type 0 where
  pub ambiguity_id : String
  pub ambiguity_ledger_id : String
  pub question : String
  pub resolution_authority : ResolutionAuthority
  pub architectural_impact : ImpactLevel
  pub cost_of_wrong_assumption : ImpactLevel
  pub why_it_matters : String

unfoldable pub ambiguity_opened_validate : AmbiguityOpened → Result (Unit {0})
ambiguity_opened_validate p = do
  refuse
      ((p.ambiguity_id == "")
        || (p.ambiguity_ledger_id == "")
        || (p.question == "")
        || (p.why_it_matters == ""))
      invalid_argument
  refuse (not (resolution_authority_valid p.resolution_authority)) invalid_argument
  refuse (not (impact_level_valid p.architectural_impact)) invalid_argument
  refuse (not (impact_level_valid p.cost_of_wrong_assumption)) invalid_argument

pub record AmbiguityResolved : Type 0 where
  pub ambiguity_id : String
  pub outcome : AmbiguityOutcome
  pub resolution : String
  pub resolved_by : ResolutionAuthority
  pub safe_deferral_boundary : String
  pub product_decision_ref : String
  pub evidence_refs : List String

unfoldable pub ambiguity_resolved_validate : AmbiguityResolved → Result (Unit {0})
ambiguity_resolved_validate p = do
  refuse ((p.ambiguity_id == "") || (p.resolution == "")) invalid_argument
  refuse (not (ambiguity_outcome_valid p.outcome)) invalid_argument
  refuse (not (resolution_authority_valid p.resolved_by)) invalid_argument
  refuse (is_deferred p.outcome && (p.safe_deferral_boundary == "")) invalid_argument

pub record ProductDecisionRecorded : Type 0 where
  pub product_decision_id : String
  pub question : String
  pub answer : String
  pub record_digest : String
  pub status : ProductDecisionStatus
  pub authority_actor : String
  pub supersedes : String
  pub resolves_ambiguity : String

unfoldable pub product_decision_recorded_validate : ProductDecisionRecorded → Result (Unit {0})
product_decision_recorded_validate p = do
  refuse
      ((p.product_decision_id == "")
        || (p.question == "")
        || (p.answer == "")
        || (p.record_digest == ""))
      invalid_argument
  refuse (not (product_decision_status_valid p.status)) invalid_argument

pub record DiscoveryExperimentStarted : Type 0 where
  pub experiment_id : String
  pub question : String
  pub hypothesis : String
  pub record_digest : String
  pub resolves_ambiguity : String

unfoldable pub discovery_experiment_started_validate :
    DiscoveryExperimentStarted → Result (Unit {0})
discovery_experiment_started_validate p =
    refuse
      ((p.experiment_id == "")
        || (p.question == "")
        || (p.hypothesis == "")
        || (p.record_digest == ""))
      invalid_argument

pub record DiscoveryExperimentCompleted : Type 0 where
  pub experiment_id : String
  pub status : ExperimentStatus
  pub result_summary : String
  pub record_digest : String
  pub limitations : List String

unfoldable pub discovery_experiment_completed_validate :
    DiscoveryExperimentCompleted → Result (Unit {0})
discovery_experiment_completed_validate p = do
  refuse ((p.experiment_id == "") || (p.record_digest == "")) invalid_argument
  refuse (not (experiment_status_valid p.status)) invalid_argument
  refuse (is_unfinished p.status) invalid_argument
  refuse (is_completed p.status && (p.result_summary == "")) invalid_argument

pub record SpecificationReviewCompleted : Type 0 where
  pub review_id : String
  pub reviewer_profile : String
  pub material_gaps_found : List String
  pub summary : String
  pub record_digest : String

unfoldable pub specification_review_completed_validate :
    SpecificationReviewCompleted → Result (Unit {0})
specification_review_completed_validate p =
    refuse ((p.review_id == "") || (p.reviewer_profile == "") || (p.summary == "")) invalid_argument

pub record SpecificationReadinessRecorded : Type 0 where
  pub readiness_id : String
  pub problem_model_id : String
  pub problem_model_revision : ℤ
  pub verdict : ReadinessVerdict
  pub record_digest : String

unfoldable pub specification_readiness_recorded_validate :
    SpecificationReadinessRecorded → Result (Unit {0})
specification_readiness_recorded_validate p = do
  refuse ((p.readiness_id == "") || (p.problem_model_id == "") || (p.record_digest == ""))
      invalid_argument
  refuse (lt_ℤ p.problem_model_revision (pos 1)) invalid_argument
  refuse (not (readiness_verdict_valid p.verdict)) invalid_argument

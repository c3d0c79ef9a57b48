-- ===== src/Events/Project.antt =====
-- The events about the project (internal/events/payloads_project.go): the payloads and their `Validate`.
use dev_cadence.Prelude.{String, ◌==◌, not, ◌||◌, ◌&&◌, ltb, List, [], ◌∷◌, contains, map}
use dev_cadence.Errs.{Result, refuse, ◌>>◌, ok, invalid_argument}
use dev_cadence.Protocol.Delivery.{DecisionAuthority, decision_authority_valid}
use dev_cadence.Protocol.Project.{
  ContractState, HealthStatus, Severity, contract_state_unset, contract_state_valid, valid_risk,
  health_status_valid,
}
use dev_cadence.Protocol.Modules.{ModuleDefinition, module_validate}
use Prim.Native.String.{len}

-- The loop over the modules, with the ids seen so far.
unfoldable pub modules_validate : List String → List ModuleDefinition → Result (Unit {0})
modules_validate seen [] = ok tt
modules_validate seen (m ∷ rest) = do
  module_validate m
  refuse (contains seen m.id) invalid_argument
  modules_validate (m.id ∷ seen) rest

pub record ProjectInitialized : Type 0 where
  pub name : String
  pub accepted_commit : String
  pub branch : String
  pub repository_path : String
  pub vision_ref : String
  pub current_outcome : String
  pub milestone_id : String
  pub milestone_title : String
  pub active_invariants : List String

unfoldable pub project_initialized_validate : ProjectInitialized → Result (Unit {0})
project_initialized_validate p = do
  refuse ((p.name == "")) invalid_argument
  refuse ((p.milestone_id == "") || (p.milestone_title == "")) invalid_argument
  refuse (not (p.accepted_commit == "") && ltb (len p.accepted_commit) 7) invalid_argument

pub record MilestoneStarted : Type 0 where
  pub milestone_id : String
  pub title : String
  pub status : String

unfoldable pub milestone_started_validate : MilestoneStarted → Result (Unit {0})
milestone_started_validate p = refuse ((p.milestone_id == "") || (p.title == "")) invalid_argument

pub record ComponentDeclared : Type 0 where
  pub component_id : String
  pub responsibility : String
  pub status : String
  pub contract_state : ContractState
  pub evidence_refs : List String

unfoldable pub component_declared_validate : ComponentDeclared → Result (Unit {0})
component_declared_validate p = do
  refuse ((p.component_id == "") || (p.status == "")) invalid_argument
  refuse
      (not (contract_state_unset p.contract_state) && not (contract_state_valid p.contract_state))
      invalid_argument

pub record DesignCandidateCreated : Type 0 where
  pub candidate_id : String
  pub summary : String
  pub artifact_ref : String

unfoldable pub design_candidate_created_validate : DesignCandidateCreated → Result (Unit {0})
design_candidate_created_validate p =
    refuse ((p.candidate_id == "") || (p.summary == "")) invalid_argument

pub record DecisionRequiredRaised : Type 0 where
  pub decision_required_id : String
  pub question : String
  pub authority : DecisionAuthority
  pub evidence_refs : List String

unfoldable pub decision_required_raised_validate : DecisionRequiredRaised → Result (Unit {0})
decision_required_raised_validate p = do
  refuse ((p.decision_required_id == "") || (p.question == "")) invalid_argument
  refuse (not (decision_authority_valid p.authority)) invalid_argument

pub record DecisionRecorded : Type 0 where
  pub decision_id : String
  pub record_digest : String
  pub question : String
  pub selected : String
  pub adr_ref : String
  pub resolves_decision_required : String
  pub invariant_changes : List String

unfoldable pub decision_recorded_validate : DecisionRecorded → Result (Unit {0})
decision_recorded_validate p = do
  refuse ((p.decision_id == "") || (p.question == "") || (p.selected == "")) invalid_argument
  refuse ((p.record_digest == "")) invalid_argument

pub record RiskRecorded : Type 0 where
  pub risk_id : String
  pub severity : Severity
  pub statement : String
  pub evidence_refs : List String

unfoldable pub risk_recorded_validate : RiskRecorded → Result (Unit {0})
risk_recorded_validate p = do
  refuse ((p.risk_id == "") || (p.statement == "")) invalid_argument
  refuse (not (valid_risk p.severity)) invalid_argument

pub record RiskResolved : Type 0 where
  pub risk_id : String
  pub resolution : String

unfoldable pub risk_resolved_validate : RiskResolved → Result (Unit {0})
risk_resolved_validate p = refuse ((p.risk_id == "") || (p.resolution == "")) invalid_argument

pub record HealthReportRecorded : Type 0 where
  pub report_id : String
  pub status : HealthStatus
  pub known_debt : List String

unfoldable pub health_report_recorded_validate : HealthReportRecorded → Result (Unit {0})
health_report_recorded_validate p = do
  refuse ((p.report_id == "")) invalid_argument
  refuse (not (health_status_valid p.status)) invalid_argument

pub record ModuleCatalogRecorded : Type 0 where
  pub config_digest : String
  pub root_module_id : String
  pub modules : List ModuleDefinition

unfoldable pub module_catalog_recorded_validate : ModuleCatalogRecorded → Result (Unit {0})
unfolding modules_validate
module_catalog_recorded_validate p = do
  refuse ((p.config_digest == "")) invalid_argument
  modules_validate [] p.modules
  refuse
      (not (p.root_module_id == "") && not (contains (map (λ m. m.id) p.modules) p.root_module_id))
      invalid_argument

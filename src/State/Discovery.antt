-- ===== src/State/Discovery.antt =====
-- internal/state/discovery.go: the reducer's working set for the discovery projection.
use dev_cadence.Prelude.{
  ℤ, pos, le_ℤ, lt_ℤ, Bool, true, false, not, ◌&&◌, ◌||◌, String, ◌==◌, Option, none, some, is_some,
  List, [], ◌∷◌, ◌++◌, is_empty, if◌then◌else◌,
}
use dev_cadence.Dict.{Dict, get, put, delete}
use dev_cadence.Errs.{Result, ok, err, conflict, integrity}
use dev_cadence.Protocol.Discovery.{
  ResolutionAuthority, ImpactLevel, RequirementStatus, SourceType, ProductDecisionStatus,
  ReadinessVerdict, superseded, withdrawn,
}
use dev_cadence.Events.Discovery.{
  ProblemModelRevised, AmbiguityOpened, AmbiguityResolved, ProductDecisionRecorded,
  RequirementRecorded, SpecificationReadinessRecorded, is_confirmed,
}
use dev_cadence.State.Exec.{Exec, ask, lift, check, modify, ◌>>=◌, ◌>>◌}

pub record OpenAmbiguity : Type 0 where
  pub authority : ResolutionAuthority
  pub architectural_impact : ImpactLevel

pub record DiscoveryState : Type 0 where
  pub problem_model_id : String
  pub problem_model_revision : ℤ
  pub ambiguity_ledger_id : String
  pub material_assumptions_unverified : ℤ
  pub open_ambiguities : Dict OpenAmbiguity
  pub ambiguity_order : List String
  pub requirement_status : Dict RequirementStatus
  pub product_decision_status : Dict ProductDecisionStatus
  pub readiness_verdict : ReadinessVerdict
  pub readiness_ref : String
  pub readiness_problem_model_revision : ℤ

-- The zero `ReadinessVerdict` is the empty text.
abbrev pub new_discovery_state : DiscoveryState
new_discovery_state = record {
  problem_model_id = "";
  problem_model_revision = pos 0;
  ambiguity_ledger_id = "";
  material_assumptions_unverified = pos 0;
  open_ambiguities = [];
  ambiguity_order = [];
  requirement_status = [];
  product_decision_status = [];
  readiness_verdict = ReadinessVerdict.unknown "";
  readiness_ref = "";
  readiness_problem_model_revision = pos 0;
}

unfoldable pub material : OpenAmbiguity → Bool
material a = elim a.architectural_impact [
  | ImpactLevel.medium ↦ true
  | ImpactLevel.high ↦ true
  | ImpactLevel.critical ↦ true
  | _ ↦ false
]

unfoldable pub awaiting_human : OpenAmbiguity → Bool
awaiting_human a = elim a.authority [ ResolutionAuthority.by_human ↦ true | _ ↦ false ]

unfoldable pub discovery_active : DiscoveryState → Bool
discovery_active d =
    not (d.problem_model_id == "")
    || not (d.ambiguity_ledger_id == "")
    || not (is_empty d.open_ambiguities)
    || not (is_empty d.requirement_status)
    || not (is_empty d.product_decision_status)
    || not (d.readiness_ref == "")

-- `removeString` of reduce.go.
unfoldable pub remove_string : List String → String → List String
remove_string [] value = []
remove_string (item ∷ list) value =
    let out = remove_string list value in if item == value then out else item ∷ out

unfoldable pub apply_problem_model_revised : ProblemModelRevised → Exec DiscoveryState (Unit {0})
apply_problem_model_revised p = do
  d ← ask
  check ((p.problem_model_id == d.problem_model_id) && le_ℤ p.revision d.problem_model_revision)
      conflict
  modify λ d. record d {
    problem_model_id = p.problem_model_id;
    problem_model_revision = p.revision;
    material_assumptions_unverified = p.material_assumptions_unverified;
    ambiguity_ledger_id =
        if p.ambiguity_ledger_id == "" then d.ambiguity_ledger_id else p.ambiguity_ledger_id;
  }

unfoldable pub apply_ambiguity_opened : AmbiguityOpened → Exec DiscoveryState (Unit {0})
apply_ambiguity_opened p = do
  d ← ask
  check (is_some (get d.open_ambiguities p.ambiguity_id)) conflict
  modify λ d. record d {
    ambiguity_ledger_id = p.ambiguity_ledger_id;
    open_ambiguities = put d.open_ambiguities p.ambiguity_id (record {
      authority = p.resolution_authority;
      architectural_impact = p.architectural_impact;
    });
    ambiguity_order = d.ambiguity_order ++ p.ambiguity_id ∷ [];
  }

abbrev close_ambiguity : String → DiscoveryState → DiscoveryState
close_ambiguity id d = record d {
  open_ambiguities = delete d.open_ambiguities id;
  ambiguity_order = remove_string d.ambiguity_order id;
}

unfoldable pub apply_ambiguity_resolved : AmbiguityResolved → Exec DiscoveryState (Unit {0})
apply_ambiguity_resolved p = do
  d ← ask
  check (not (is_some (get d.open_ambiguities p.ambiguity_id))) integrity
  modify (close_ambiguity p.ambiguity_id)

unfoldable pub apply_product_decision_recorded :
    ProductDecisionRecorded → Exec DiscoveryState (Unit {0})
apply_product_decision_recorded p = do
  d ← ask
  check
      (not (p.resolves_ambiguity == "")
        && not (is_some (get d.open_ambiguities p.resolves_ambiguity)))
      integrity
  check (not (p.supersedes == "") && not (is_some (get d.product_decision_status p.supersedes)))
      integrity
  modify (λ d. if p.resolves_ambiguity == "" then d else close_ambiguity p.resolves_ambiguity d)
  modify λ d. if p.supersedes == "" then d else record d {
    product_decision_status = put d.product_decision_status p.supersedes superseded;
  }
  modify λ d. record d {
    product_decision_status = put d.product_decision_status p.product_decision_id p.status;
  }

abbrev is_product_decision : SourceType → Bool
is_product_decision SourceType.product_decision = true
is_product_decision _ = false

-- The check of a requirement that is confirmed from a product decision.
unfoldable pub source_authority : Option ProductDecisionStatus → Result (Unit {0})
source_authority none = err integrity
source_authority (some withdrawn) = err integrity
source_authority (some s) = ok tt

unfoldable pub apply_requirement_recorded : RequirementRecorded → Exec DiscoveryState (Unit {0})
unfolding source_authority
apply_requirement_recorded p = do
  d ← ask
  lift (
      if is_confirmed p.status && is_product_decision p.source_type
      then source_authority (get d.product_decision_status p.source_ref)
      else ok tt)
  modify λ d. record d { requirement_status = put d.requirement_status p.requirement_id p.status }

abbrev eq_ℤ : ℤ → ℤ → Bool
eq_ℤ a b = le_ℤ a b && le_ℤ b a

unfoldable pub apply_readiness_recorded :
    SpecificationReadinessRecorded → Exec DiscoveryState (Unit {0})
apply_readiness_recorded p = do
  d ← ask
  check (not (d.problem_model_id == "") && not (p.problem_model_id == d.problem_model_id)) integrity
  check
      (not (eq_ℤ d.problem_model_revision (pos 0))
        && lt_ℤ d.problem_model_revision p.problem_model_revision)
      integrity
  modify λ d. record d {
    readiness_verdict = p.verdict;
    readiness_ref = p.readiness_id;
    readiness_problem_model_revision = p.problem_model_revision;
  }

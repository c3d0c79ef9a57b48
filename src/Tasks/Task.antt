-- ===== src/Tasks/Task.antt =====
-- internal/tasks/task.go: the projected task and why it is blocked.
use dev_cadence.Prelude.{
  ℤ, String, ◌==◌, Bool, true, false, not, xor, ◌&&◌, Option, none, some, is_some, List, [], ◌∷◌,
  if◌then◌else◌,
}
use dev_cadence.Errs.{Result, ok, refuse, ◌>>◌, integrity, invalid_argument}
use dev_cadence.Protocol.Delivery.{
  ChangeClass, change_class_valid, change_class_unset, DecisionAuthority, decision_authority_valid,
}
use dev_cadence.Tasks.State.{State, state_valid, state_eq, blocked}

pub record BlockedReason : Type 0 where
  pub trigger : String
  pub statement : String
  pub authority : DecisionAuthority
  pub evidence_refs : List String
  pub attempt_id : String
  pub blocked_from : State

-- The loop that looks for a reference that is not empty.
unfoldable pub has_evidence : List String → Bool
has_evidence [] = false
has_evidence (r ∷ rest) = let later = has_evidence rest in if not (r == "") then true else later

unfoldable pub reason_validate : BlockedReason → Result (Unit {0})
unfolding has_evidence decision_authority_valid
reason_validate r = do
  refuse (r.trigger == "") invalid_argument
  refuse (r.statement == "") invalid_argument
  refuse (not (decision_authority_valid r.authority)) invalid_argument
  refuse (not (has_evidence r.evidence_refs)) invalid_argument

-- `if r != nil { return r.Validate() }`
unfoldable pub reason_validate? : Option BlockedReason → Result (Unit {0})
unfolding reason_validate
reason_validate? none = ok tt
reason_validate? (some r) = reason_validate r

pub record Task : Type 0 where
  pub id : String
  pub project_id : String
  pub alias : String
  pub title : String
  pub milestone_id : String
  pub change_class : ChangeClass
  pub state : State
  pub work_package_id : String
  pub work_package_version : ℤ
  pub current_attempt_id : String
  pub blocked_reason : Option BlockedReason
  pub accepted_commit : String
  pub created_seq : ℤ
  pub updated_seq : ℤ

unfoldable pub task_validate : Task → Result (Unit {0})
unfolding state_valid state_eq change_class_valid change_class_unset reason_validate?
task_validate t = do
  refuse (t.id == "") invalid_argument
  refuse (t.project_id == "") invalid_argument
  refuse (t.title == "") invalid_argument
  refuse (not (state_valid t.state)) integrity
  refuse (not (change_class_unset t.change_class) && not (change_class_valid t.change_class))
      invalid_argument
  refuse (xor (state_eq t.state blocked) (is_some t.blocked_reason)) integrity
  reason_validate? t.blocked_reason

unfoldable pub blocked_authority : Option BlockedReason → DecisionAuthority
blocked_authority none = DecisionAuthority.unknown ""
blocked_authority (some r) = r.authority

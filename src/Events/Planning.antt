-- ===== src/Events/Planning.antt =====
-- The events that plan a task (internal/events/payloads_task.go): the payloads and their `Validate`.
use dev_cadence.Prelude.{String, ◌==◌, not, ◌||◌, ℤ, pos, lt_ℤ, List}
use dev_cadence.Errs.{Result, refuse, ◌>>◌, invalid_argument}
use dev_cadence.Protocol.Delivery.{ChangeClass, change_class_valid}
use dev_cadence.Events.Common.{require_task_id}

pub record TaskCreated : Type 0 where
  pub task_id : String
  pub alias : String
  pub title : String
  pub milestone_id : String
  pub change_class : ChangeClass
  pub depends_on : List String

unfoldable pub task_created_validate : TaskCreated → Result (Unit {0})
task_created_validate p = do
  refuse ((p.task_id == "") || (p.title == "")) invalid_argument
  refuse ((p.alias == "")) invalid_argument
  refuse (not (change_class_valid p.change_class)) invalid_argument

pub record TaskScoutingStarted : Type 0 where
  pub task_id : String
  pub investigation_id : String

unfoldable pub task_scouting_started_validate : TaskScoutingStarted → Result (Unit {0})
task_scouting_started_validate p = require_task_id p.task_id

pub record TaskDesignStarted : Type 0 where
  pub task_id : String
  pub reason : String
  pub evidence_packet_refs : List String

unfoldable pub task_design_started_validate : TaskDesignStarted → Result (Unit {0})
task_design_started_validate p = do
  require_task_id p.task_id
  refuse ((p.reason == "")) invalid_argument

pub record WorkPackageProposed : Type 0 where
  pub task_id : String
  pub work_package_id : String
  pub version : ℤ
  pub project_state_revision : String
  pub base_commit : String
  pub record_digest : String

unfoldable pub work_package_proposed_validate : WorkPackageProposed → Result (Unit {0})
work_package_proposed_validate p = do
  require_task_id p.task_id
  refuse ((p.work_package_id == "") || (p.record_digest == "") || (p.base_commit == ""))
      invalid_argument
  refuse (lt_ℤ p.version (pos 1)) invalid_argument
  refuse ((p.project_state_revision == "")) invalid_argument

pub record WorkPackageApproved : Type 0 where
  pub task_id : String
  pub work_package_id : String
  pub work_package_version : ℤ
  pub record_digest : String
  pub project_state_revision : String
  pub base_commit : String
  pub change_class : ChangeClass

unfoldable pub work_package_approved_validate : WorkPackageApproved → Result (Unit {0})
work_package_approved_validate p = do
  require_task_id p.task_id
  refuse ((p.work_package_id == "") || (p.record_digest == "")) invalid_argument
  refuse (lt_ℤ p.work_package_version (pos 1)) invalid_argument
  refuse ((p.project_state_revision == "")) invalid_argument
  refuse (not (change_class_valid p.change_class)) invalid_argument

pub record TaskDelegated : Type 0 where
  pub task_id : String
  pub work_package_id : String
  pub worker_role : String
  pub worker_profile : String
  pub max_attempts : ℤ

unfoldable pub task_delegated_validate : TaskDelegated → Result (Unit {0})
task_delegated_validate p = do
  require_task_id p.task_id
  refuse ((p.work_package_id == "") || (p.worker_role == "")) invalid_argument
  refuse (lt_ℤ p.max_attempts (pos 0)) invalid_argument

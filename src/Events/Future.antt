-- ===== src/Events/Future.antt =====
-- The events that later milestones act on (internal/events/payloads_future.go): the payloads and their `Validate`.
use dev_cadence.Prelude.{String, ◌==◌, not, ◌||◌, List}
use dev_cadence.Errs.{Result, refuse, ◌>>◌, invalid_argument}
use dev_cadence.Protocol.Delivery.{LessonScope, lesson_scope_valid}

pub record LessonCandidateCreated : Type 0 where
  pub lesson_candidate_id : String
  pub scope : LessonScope
  pub observation : String
  pub record_digest : String

unfoldable pub lesson_candidate_created_validate : LessonCandidateCreated → Result (Unit {0})
lesson_candidate_created_validate p = do
  refuse ((p.lesson_candidate_id == "") || (p.observation == "") || (p.record_digest == ""))
      invalid_argument
  refuse (not (lesson_scope_valid p.scope)) invalid_argument

pub record LessonPromoted : Type 0 where
  pub lesson_candidate_id : String
  pub promoted_by : String
  pub target_ref : String
  pub version : String

unfoldable pub lesson_promoted_validate : LessonPromoted → Result (Unit {0})
lesson_promoted_validate p =
    refuse
      ((p.lesson_candidate_id == "")
        || (p.promoted_by == "")
        || (p.target_ref == "")
        || (p.version == ""))
      invalid_argument

pub record RefactoringEpochStarted : Type 0 where
  pub epoch_id : String
  pub trigger : String
  pub scope : String

unfoldable pub refactoring_epoch_started_validate : RefactoringEpochStarted → Result (Unit {0})
refactoring_epoch_started_validate p =
    refuse ((p.epoch_id == "") || (p.trigger == "")) invalid_argument

pub record ArchitectureReconciled : Type 0 where
  pub reconciliation_id : String
  pub outcome : String
  pub superseded_adrs : List String
  pub migration_ref : String

unfoldable pub architecture_reconciled_validate : ArchitectureReconciled → Result (Unit {0})
architecture_reconciled_validate p =
    refuse ((p.reconciliation_id == "") || (p.outcome == "")) invalid_argument

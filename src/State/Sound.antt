-- ===== src/State/Sound.antt =====
-- The invariant of the lineage in the projection of internal/state, and how evidence accumulates.
pub mod Attempts
pub mod Evidence
pub mod Tasks
use dev_cadence.Prelude.{String, ◌≡◌, Bool, true, false, some, contains, arith}
use dev_cadence.Dict.{get}
use dev_cadence.Errs.{ok}
use dev_cadence.Tasks.State.{State}
use dev_cadence.Tasks.Task.{Task, task_validate}
use dev_cadence.Tasks.Attempt.{Attempt, AttemptStatus, attempt_validate}
use dev_cadence.State.Projection.{EvidenceRef, listed}
use dev_cadence.State.Lineage.{scope_attempt_evidence}
use dev_cadence.State.Core.{Core, IsAbout, IsJustified}

-- The states of a task whose change has been accepted.
abbrev pub is_accepted : State → Bool
is_accepted State.accepted = true
is_accepted State.integrating = true
is_accepted State.integration_validating = true
is_accepted State.done = true
is_accepted _ = false

pub record Sound (c : Core) : Type 0 where
  pub tasks_valid :
      (id : String) (t : Task) → get c.tasks id ≡ some t → (t.id ≡ id) × (task_validate t ≡ ok tt)
  pub attempts_valid :
      (id : String) (a : Attempt)
      → get c.attempts id ≡ some a
      → (a.id ≡ id) × (attempt_validate a ≡ ok tt)
  pub attempts_owned :
      (id : String) (a : Attempt)
      → get c.attempts id ≡ some a
      → (t : Task) × (get c.tasks a.task_id ≡ some t)
  pub listed_exist :
      (task_id id : String)
      → contains (listed (get c.attempts_by_task task_id)) id ≡ true
      → (a : Attempt) × (get c.attempts id ≡ some a) × (a.task_id ≡ task_id)
  pub all_listed :
      (id : String) (a : Attempt)
      → get c.attempts id ≡ some a
      → contains (listed (get c.attempts_by_task a.task_id)) id ≡ true
  pub one_running :
      (i j : String) (a b : Attempt)
      → get c.attempts i ≡ some a
      → get c.attempts j ≡ some b
      → a.task_id ≡ b.task_id
      → a.status ≡ AttemptStatus.running
      → b.status ≡ AttemptStatus.running
      → i ≡ j
  pub aliases_own :
      (id : String) (t : Task) → get c.tasks id ≡ some t → get c.aliases t.alias ≡ some id
  pub validations_about :
      (id : String) (ref : EvidenceRef)
      → get c.validations id ≡ some ref
      → ref.scope ≡ scope_attempt_evidence
      → IsAbout c ref
  pub reviews_about :
      (id : String) (ref : EvidenceRef)
      → get c.reviews id ≡ some ref
      → ref.scope ≡ scope_attempt_evidence
      → IsAbout c ref
  pub justified :
      (id : String) (t : Task)
      → get c.tasks id ≡ some t
      → is_accepted t.state ≡ true
      → IsJustified c t

-- What a later state still has of an earlier one: its candidates and its evidence.
pub record Grows (c d : Core) : Type 0 where
  pub candidates :
      (id : String) (a : Attempt)
      → get c.attempts id ≡ some a
      → a.status ≡ AttemptStatus.candidate_produced
      → get d.attempts id ≡ some a
  pub validations :
      (id : String) (ref : EvidenceRef)
      → get c.validations id ≡ some ref
      → get d.validations id ≡ some ref
  pub reviews :
      (id : String) (ref : EvidenceRef) → get c.reviews id ≡ some ref → get d.reviews id ≡ some ref

pub IsAbout-Grows : {c d : Core} {ref : EvidenceRef} → Grows c d → IsAbout c ref → IsAbout d ref
IsAbout-Grows g h = record {
  attempt = h.attempt;
  found = g.candidates _ _ h.found h.produced;
  of_task = h.of_task;
  produced = h.produced;
  same_commit = h.same_commit;
}

pub IsJustified-Grows : {c d : Core} {t : Task} → Grows c d → IsJustified c t → IsJustified d t
IsJustified-Grows g h = record {
  attempt_id = h.attempt_id;
  attempt = h.attempt;
  found = g.candidates _ _ h.found h.produced;
  of_task = h.of_task;
  produced = h.produced;
  same_commit = h.same_commit;
  same_package = h.same_package;
  same_version = h.same_version;
  validation_id = h.validation_id;
  validation = h.validation;
  validated = g.validations _ _ h.validated;
  validation_about = h.validation_about;
  review_id = h.review_id;
  review = h.review;
  reviewed = g.reviews _ _ h.reviewed;
  review_about = h.review_about;
}

-- A justification speaks of the task's id, plan and accepted commit only.
pub IsJustified-SamePlan :
    {c : Core} {t u : Task}
    → u.id ≡ t.id
    → u.work_package_id ≡ t.work_package_id
    → u.work_package_version ≡ t.work_package_version
    → u.accepted_commit ≡ t.accepted_commit
    → IsJustified c t
    → IsJustified c u
IsJustified-SamePlan i w v m h = record {
  attempt_id = h.attempt_id;
  attempt = h.attempt;
  found = h.found;
  of_task = cc;
  produced = h.produced;
  same_commit = cc;
  same_package = cc;
  same_version = cc;
  validation_id = h.validation_id;
  validation = h.validation;
  validated = h.validated;
  validation_about = ground arith;
  review_id = h.review_id;
  review = h.review;
  reviewed = h.reviewed;
  review_about = ground arith;
}

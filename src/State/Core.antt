-- ===== src/State/Core.antt =====
-- The part of the projection that carries lineage: tasks, attempts and the evidence about them; and
-- the abstract machine that says how one event may change it.
use dev_cadence.Prelude.{ℤ, String, ◌≡◌, ◌≢◌, ◌⊎◌, none, some, List, [], ◌∷◌, ◌++◌, true}
use dev_cadence.Dict.{Dict, get, put}
use dev_cadence.Errs.{ok}
use dev_cadence.Tasks.State.{State, can_transition}
use dev_cadence.Tasks.Task.{Task, task_validate}
use dev_cadence.Tasks.Attempt.{Attempt, AttemptStatus, attempt_terminal, attempt_validate}
use dev_cadence.State.Projection.{EvidenceRef, Projection, listed}
use dev_cadence.State.Lineage.{scope_attempt_evidence}

pub record Core : Type 0 where
  pub tasks : Dict Task
  pub attempts : Dict Attempt
  pub attempts_by_task : Dict (List String)
  pub aliases : Dict String
  pub validations : Dict EvidenceRef
  pub reviews : Dict EvidenceRef

abbrev pub core : Projection → Core
core p = record {
  tasks = p.tasks;
  attempts = p.attempts;
  attempts_by_task = p.attempts_by_task;
  aliases = p.aliases;
  validations = p.validations;
  reviews = p.reviews;
}

-- The writes that the machine makes.
abbrev pub with_task : Core → String → Task → Core
with_task c id t = record c { tasks = put c.tasks id t }

abbrev pub with_new_task : Core → Task → Core
with_new_task c t = record c { tasks = put c.tasks t.id t; aliases = put c.aliases t.alias t.id }

abbrev pub with_attempt : Core → String → Attempt → Core
with_attempt c id a = record c { attempts = put c.attempts id a }

abbrev pub with_new_attempt : Core → Task → Attempt → ℤ → Core
with_new_attempt c t a seq = record c {
  tasks = put c.tasks a.task_id (record t { current_attempt_id = a.id; updated_seq = seq });
  attempts = put c.attempts a.id a;
  attempts_by_task =
      put c.attempts_by_task a.task_id (listed (get c.attempts_by_task a.task_id) ++ a.id ∷ []);
}

abbrev pub with_validation : Core → String → EvidenceRef → Core
with_validation c id ref = record c { validations = put c.validations id ref }

abbrev pub with_review : Core → String → EvidenceRef → Core
with_review c id ref = record c { reviews = put c.reviews id ref }

-- The evidence is about a candidate that the named attempt of the named task produced.
pub record IsAbout (c : Core) (ref : EvidenceRef) : Type 0 where
  pub attempt : Attempt
  pub found : get c.attempts ref.attempt_id ≡ some attempt
  pub of_task : attempt.task_id ≡ ref.task_id
  pub produced : attempt.status ≡ AttemptStatus.candidate_produced
  pub same_commit : attempt.candidate_commit ≡ ref.commit

-- What ties a task's accepted commit to its work package, its attempt and the evidence.
pub record IsJustified (c : Core) (t : Task) : Type 0 where
  pub attempt_id : String
  pub attempt : Attempt
  pub found : get c.attempts attempt_id ≡ some attempt
  pub of_task : attempt.task_id ≡ t.id
  pub produced : attempt.status ≡ AttemptStatus.candidate_produced
  pub same_commit : attempt.candidate_commit ≡ t.accepted_commit
  pub same_package : attempt.work_package_id ≡ t.work_package_id
  pub same_version : attempt.work_package_version ≡ t.work_package_version
  pub validation_id : String
  pub validation : EvidenceRef
  pub validated : get c.validations validation_id ≡ some validation
  pub validation_about : (validation.task_id ≡ t.id) × (validation.attempt_id ≡ attempt_id)
  pub review_id : String
  pub review : EvidenceRef
  pub reviewed : get c.reviews review_id ≡ some review
  pub review_about : (review.task_id ≡ t.id) × (review.attempt_id ≡ attempt_id)

-- What no event changes about a task.
pub record SameTask (t u : Task) : Type 0 where
  pub id : u.id ≡ t.id
  pub project_id : u.project_id ≡ t.project_id
  pub alias : u.alias ≡ t.alias
  pub title : u.title ≡ t.title
  pub milestone_id : u.milestone_id ≡ t.milestone_id
  pub created_seq : u.created_seq ≡ t.created_seq

-- What no event changes about an attempt.
pub record SameAttempt (a b : Attempt) : Type 0 where
  pub id : b.id ≡ a.id
  pub task_id : b.task_id ≡ a.task_id
  pub ordinal : b.ordinal ≡ a.ordinal
  pub work_package_id : b.work_package_id ≡ a.work_package_id
  pub work_package_version : b.work_package_version ≡ a.work_package_version
  pub base_commit : b.base_commit ≡ a.base_commit
  pub started_at : b.started_at ≡ a.started_at
  pub created_seq : b.created_seq ≡ a.created_seq

-- The plan and the accepted commit of a task.
pub record SamePlan (t u : Task) : Type 0 where
  pub work_package_id : u.work_package_id ≡ t.work_package_id
  pub work_package_version : u.work_package_version ≡ t.work_package_version
  pub accepted_commit : u.accepted_commit ≡ t.accepted_commit

-- Changes that move no task: an attempt starts or finishes, or evidence is recorded.
pub data Records (c d : Core) : Type 0 where
  nothing : d ≡ c → Records c d
  start :
      (t : Task) (a : Attempt) (q : ℤ)
      → get c.tasks a.task_id ≡ some t
      → t.state ≡ State.running
      → get c.attempts a.id ≡ none
      → ((id : String) (b : Attempt)
          → get c.attempts id ≡ some b
          → b.task_id ≡ a.task_id
          → b.status ≢ AttemptStatus.running)
      → a.status ≡ AttemptStatus.running
      → attempt_validate a ≡ ok tt
      → d ≡ with_new_attempt c t a q
      → Records c d
  finish :
      (id : String) (a b : Attempt)
      → get c.attempts id ≡ some a
      → a.status ≡ AttemptStatus.running
      → attempt_terminal b.status ≡ true
      → attempt_validate b ≡ ok tt
      → SameAttempt a b
      → d ≡ with_attempt c id b
      → Records c d
  validate :
      (id : String) (ref : EvidenceRef)
      → get c.validations id ≡ none
      → (ref.scope ≡ scope_attempt_evidence → IsAbout c ref)
      → d ≡ with_validation c id ref
      → Records c d
  review :
      (id : String) (ref : EvidenceRef)
      → get c.reviews id ≡ none
      → (ref.scope ≡ scope_attempt_evidence → IsAbout c ref)
      → d ≡ with_review c id ref
      → Records c d

-- Changes of a task's state: a task is created, or follows one edge of the lifecycle.
pub data Shifts (c d : Core) : Type 0 where
  stay : d ≡ c → Shifts c d
  create :
      (t : Task)
      → get c.tasks t.id ≡ none
      → get c.aliases t.alias ≡ none
      → t.state ≡ State.proposed
      → task_validate t ≡ ok tt
      → d ≡ with_new_task c t
      → Shifts c d
  move :
      (id : String) (t u : Task)
      → get c.tasks id ≡ some t
      → can_transition t.state u.state ≡ true
      → u.state ≢ State.accepted
      → (t.state ≡ State.designing) ⊎ SamePlan t u
      → task_validate u ≡ ok tt
      → SameTask t u
      → d ≡ with_task c id u
      → Shifts c d
  accept :
      (id : String) (t u : Task)
      → get c.tasks id ≡ some t
      → t.state ≡ State.reviewing
      → u.state ≡ State.accepted
      → IsJustified c u
      → task_validate u ≡ ok tt
      → SameTask t u
      → d ≡ with_task c id u
      → Shifts c d

-- One event: evidence and attempts first, then at most one task moves.
pub record Move (c d : Core) : Type 0 where
  pub between : Core
  pub recorded : Records c between
  pub shifted : Shifts between d

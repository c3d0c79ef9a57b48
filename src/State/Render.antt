-- ===== src/State/Render.antt =====
-- internal/state/projection.go: the tasks of `ProjectState`, which `ProjectState()` sorts into buckets by
-- alias and counts for the milestone.
pub mod Waiting
pub mod Snapshot
use dev_cadence.Prelude.{
  ℕ, suc, ◌+◌, String, ◌==◌, true, ◌&&◌, Option, none, some, List, [], ◌∷◌, ◌++◌, if◌then◌else◌,
}
use dev_cadence.Dict.{Dict, get}
use dev_cadence.Errs.{Result, ok, err, internal, not_found}
use dev_cadence.Protocol.Records.{MilestoneState}
use dev_cadence.Tasks.State.{State, state_eq, Bucket, buckets}
use dev_cadence.Tasks.Task.{Task, blocked_authority}
use dev_cadence.State.Projection.{Projection}

-- `protocol.TaskBuckets`.
pub record TaskBuckets : Type 0 where
  pub ready : List String
  pub running : List String
  pub blocked : List String
  pub awaiting_principal : List String

-- The variables of the loop.
pub record Tally : Type 0 where
  pub shown : TaskBuckets
  pub completed : ℕ
  pub total : ℕ

abbrev pub no_tasks : Tally
no_tasks = record {
  shown = record { ready = []; running = []; blocked = []; awaiting_principal = [] };
  completed = 0;
  total = 0;
}

-- The switch in the inner loop.
unfoldable pub show : String → TaskBuckets → Bucket → TaskBuckets
show alias b Bucket.ready = record b { ready = b.ready ++ alias ∷ [] }
show alias b Bucket.running = record b { running = b.running ++ alias ∷ [] }
show alias b Bucket.blocked = record b { blocked = b.blocked ++ alias ∷ [] }
show alias b Bucket.awaiting_principal = record b {
  awaiting_principal = b.awaiting_principal ++ alias ∷ [];
}

unfoldable pub show_in : String → TaskBuckets → List Bucket → TaskBuckets
unfolding show
show_in alias b [] = b
show_in alias b (x ∷ xs) = show_in alias (show alias b x) xs

-- One task of the outer loop.
unfoldable pub tally_task : String → Task → Tally → Tally
unfolding show_in
tally_task milestone_id t c = record {
  shown = show_in t.alias c.shown (buckets t.state (blocked_authority t.blocked_reason));
  completed =
      if (t.milestone_id == milestone_id) && state_eq t.state State.done
      then suc c.completed
      else c.completed;
  total = if t.milestone_id == milestone_id then suc c.total else c.total;
}

-- The outer loop. An id that is no key would be a nil dereference in the code; it is `internal` here.
unfoldable pub tally_tasks : Dict Task → String → List String → Tally → Result Tally
tally_tasks tasks milestone_id [] c = ok c
tally_tasks tasks milestone_id (id ∷ ids) c = elim (get tasks id) [
  | none ↦ err internal
  | some t ↦ tally_tasks tasks milestone_id ids (tally_task milestone_id t c)
]

unfoldable pub render_tasks : Projection → Result (TaskBuckets × MilestoneState)
unfolding tally_tasks
render_tasks p =
    if p.initialised
    then elim (tally_tasks p.tasks p.milestone.id p.task_ids no_tasks) [
      | ok c ↦
          ok (c.shown, record p.milestone { completed_tasks = c.completed; total_tasks = c.total })
      | err e ↦ err e
    ]
    else err not_found

-- ===== src/State/Render/Snapshot.antt =====
-- What `ProjectState()` of internal/state/projection.go shows of the tasks of a journal.
use dev_cadence.Prelude.{
  ◌≤◌, String, ◌≡◌, ◌∙◌, refl, sym, ◌⊎◌, ◌↔◌, inl, inr, true, List, [], ◌∷◌, contains, arith,
  length,
}
use dev_cadence.Errs.{ok}
use dev_cadence.State.Render.{TaskBuckets, no_tasks, render_tasks}
use dev_cadence.Protocol.Records.{MilestoneState}
use dev_cadence.Events.Envelope.{Event}
use dev_cadence.State.Projection.{Projection}
use dev_cadence.State.Apply.{reduce}
use dev_cadence.State.Index.Reduction.{reduce-Indexed}
use dev_cadence.State.Replay.Project.{reduce-one_project}
use dev_cadence.State.Render.Waiting.{Waits, Tallied, all-Tallied}

-- What is shown of the tasks of a projection.
pub record Shows (q : Projection) : Type 0 where
  pub shown : TaskBuckets
  pub milestone : MilestoneState
  pub returned : render_tasks q ≡ ok (shown, milestone)
  pub completed : milestone.completed_tasks ≤ milestone.total_tasks
  pub total : milestone.total_tasks ≤ length q.task_ids
  pub awaiting :
      (a : String) → (contains shown.awaiting_principal a ≡ true) ↔ Waits q.tasks q.task_ids a

Tallied-Shows :
    (q : Projection)
    → q.initialised ≡ true
    → Tallied q.tasks q.milestone.id q.task_ids no_tasks
    → Shows q
unfolding render_tasks
Tallied-Shows q on t = record {
  shown = t.result.shown;
  milestone = record q.milestone {
    completed_tasks = t.result.completed;
    total_tasks = t.result.total;
  };
  returned = rw (on, t.returned) refl;
  completed = omega (arith, t.completed);
  total = omega (arith, t.total);
  awaiting = λ a. (λ k. only ((t.awaiting a).0 k), λ w. (t.awaiting a).1 (inr w));
}
  where
    only :
        {a : String}
        → (contains [] a ≡ true) ⊎ Waits q.tasks q.task_ids a
        → Waits q.tasks q.task_ids a
    only (inl k) = cc
    only (inr w) = w

-- For a journal with an event that `Reduce` accepts, `ProjectState` can sort all tasks into buckets; it counts
-- no more completed tasks of the milestone than tasks of it, and no more of these than there are tasks; and
-- an alias awaits the principal exactly if a task with that alias is in DESIGNING, or BLOCKED on the
-- principal's authority.
pub reduce-Shows : (e : Event) (es : List Event) (q : Projection) → reduce (e ∷ es) ≡ ok q → Shows q
reduce-Shows e es q h =
    let index = (reduce-Indexed (e ∷ es) q h).tasks in
    Tallied-Shows q (reduce-one_project e es q h).3
      (all-Tallied q.tasks q.milestone.id q.task_ids no_tasks λ k l. sym (index.same k) ∙ l)

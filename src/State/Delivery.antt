-- ===== src/State/Delivery.antt =====
-- internal/state/reduce.go: the creation of tasks, their transitions and their work packages.
use dev_cadence.Prelude.{
  ℤ, pos, le_ℤ, String, ◌==◌, not, ◌&&◌, Option, none, some, is_some, [], ◌∷◌, ◌++◌, if◌then◌else◌,
}
use dev_cadence.Dict.{get, put}
use dev_cadence.Errs.{Result, ok, err, conflict, integrity}
use dev_cadence.Protocol.Delivery.{change_class_unset}
use dev_cadence.Tasks.State.{State, check_transition}
use dev_cadence.Tasks.Task.{Task, task_validate}
use dev_cadence.Events.Planning.{
  TaskCreated, WorkPackageProposed, WorkPackageApproved, TaskDelegated,
}
use dev_cadence.Events.Envelope.{Event}
use dev_cadence.State.Exec.{Exec, ask, lift, check, modify, ◌>>=◌, ◌>>◌}
use dev_cadence.State.Projection.{Projection, task_of}
use dev_cadence.State.Lineage.{require_task_in_state}

unfoldable pub apply_task_created : Event → TaskCreated → Exec Projection (Unit {0})
apply_task_created e payload = do
  p ← ask
  check (is_some (get p.tasks payload.task_id)) conflict
  check (is_some (get p.aliases payload.alias)) conflict
  let task : Task = record {
    id = payload.task_id;
    project_id = e.project_id;
    alias = payload.alias;
    title = payload.title;
    milestone_id = if payload.milestone_id == "" then p.milestone.id else payload.milestone_id;
    change_class = payload.change_class;
    state = State.proposed;
    work_package_id = "";
    work_package_version = pos 0;
    current_attempt_id = "";
    blocked_reason = none;
    accepted_commit = "";
    created_seq = e.seq;
    updated_seq = e.seq;
  }
  lift (task_validate task)
  modify λ p. record p {
    tasks = put p.tasks task.id task;
    task_ids = p.task_ids ++ task.id ∷ [];
    aliases = put p.aliases task.alias task.id;
  }

-- `transitionTask`; a nil `mutate` is `ok`.
unfoldable pub transition_task :
    Event → String → State → (Task → Result Task) → Exec Projection (Unit {0})
transition_task e task_id to mutate = do
  p ← ask
  task ← lift (task_of p task_id)
  lift (check_transition task.state to)
  mutated ← lift (mutate (record task { state = to }))
  let staged : Task = record mutated { updated_seq = e.seq }
  lift (task_validate staged)
  modify λ p. record p { tasks = put p.tasks task_id staged }

-- A missing key of a map of versions reads as 0.
abbrev pub version_of : Option ℤ → ℤ
version_of none = pos 0
version_of (some v) = v

unfoldable pub apply_work_package_proposed : WorkPackageProposed → Exec Projection (Unit {0})
apply_work_package_proposed payload = do
  p ← ask
  task ← lift (require_task_in_state p payload.task_id State.designing)
  check (le_ℤ payload.version (version_of (get p.proposals payload.work_package_id))) conflict
  check
      ((task.work_package_id == payload.work_package_id)
        && le_ℤ payload.version task.work_package_version)
      conflict
  modify λ p. record p { proposals = put p.proposals payload.work_package_id payload.version }

unfoldable pub approve_work_package : WorkPackageApproved → Task → Result Task
approve_work_package payload t =
    if (t.work_package_id == payload.work_package_id)
      && le_ℤ payload.work_package_version t.work_package_version
    then err conflict
    else ok (record t {
      work_package_id = payload.work_package_id;
      work_package_version = payload.work_package_version;
      change_class =
          if change_class_unset payload.change_class then t.change_class else payload.change_class;
    })

unfoldable pub apply_work_package_approved :
    Event → WorkPackageApproved → Exec Projection (Unit {0})
apply_work_package_approved e payload =
    transition_task e payload.task_id State.ready (approve_work_package payload)

unfoldable pub delegate_task : TaskDelegated → Task → Result Task
delegate_task payload t =
    if not (t.work_package_id == payload.work_package_id) then err integrity else ok t

unfoldable pub apply_task_delegated : Event → TaskDelegated → Exec Projection (Unit {0})
apply_task_delegated e payload =
    transition_task e payload.task_id State.running (delegate_task payload)

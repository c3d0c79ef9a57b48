-- ===== src/State/Tests/Replays.antt =====
-- The theorems about journals, on one journal.
use dev_cadence.Prelude.{pos, ◌≡◌, ◌↔◌, true, List, ◌∷◌, ◌++◌, All}
use dev_cadence.Errs.{Category, ok, err, integrity}
use dev_cadence.Tasks.State.{State, validating}
use dev_cadence.Tasks.Task.{Task}
use dev_cadence.Events.Envelope.{Event}
use dev_cadence.State.Exec.{Ends}
use dev_cadence.State.Projection.{new_projection}
use dev_cadence.State.Delivery.{transition_task}
use dev_cadence.State.Apply.{apply, reduce_from, is_initialisation}
use dev_cadence.State.Core.{core}
use dev_cadence.State.Sound.{Sound}
use dev_cadence.State.Machine.History.{HasHistory}
use dev_cadence.State.Refine.{Transitioned, transition-Ends, transition_succeeds}
use dev_cadence.State.Refine.Apply.{Applied}
use dev_cadence.State.Index.{Indexed}
use dev_cadence.State.Index.Reduction.{reduce-Indexed}
use dev_cadence.State.Render.Snapshot.{Shows, reduce-Shows}
use dev_cadence.State.Replay.{apply_refines, reduce-Sound}
use dev_cadence.State.Replay.Order.{Ascending, last_seq, reduce-Ascending}
use dev_cadence.State.Replay.Prefix.{StopsAt, reduce_from-err}
use dev_cadence.State.Replay.Lives.{reduce_from-IsHistory}
use dev_cadence.State.Replay.Project.{
  OfProject, Sets, Some, reduce-one_project, reduce-accepted_commit,
}
use dev_cadence.State.Tests.{initialization, planning, acceptance, journal}
use dev_cadence.State.Tests.Runs.{
  final, journal_reduces, ready, planning_reduces, later, acceptance_reduces, delegated,
  delegated_there, delegated_valid, started, started_there,
}

reduce-Sound_example : Sound (core final)
reduce-Sound_example = reduce-Sound journal final journal_reduces

abbrev planned : List Event
planned = initialization ∷ planning

apply_refines_example :
    ((c : Category)
      → (apply initialization ready).0 ≡ err c
      → (apply initialization ready).1 ≡ ready)
    × ((apply initialization ready).0 ≡ ok tt
        → Applied ready initialization (apply initialization ready).1)
apply_refines_example =
    apply_refines ready initialization (reduce-Sound planned ready planning_reduces)

reduce_from-IsHistory_example : HasHistory later.attempts "A" started
reduce_from-IsHistory_example =
    reduce_from-IsHistory ready later acceptance (reduce-Sound planned ready planning_reduces)
      acceptance_reduces "A" started started_there

reduce-one_project_example :
    (is_initialisation initialization ≡ true)
    × All (OfProject "P") (planning ++ acceptance)
    × (final.project_id ≡ "P")
    × (final.initialised ≡ true)
reduce-one_project_example =
    reduce-one_project initialization (planning ++ acceptance) final journal_reduces

reduce-accepted_commit_example : Some (Sets final.accepted_commit) journal
reduce-accepted_commit_example =
    reduce-accepted_commit initialization (planning ++ acceptance) final journal_reduces

reduce-Ascending_example :
    Ascending (pos 0) journal × (final.high_watermark ≡ last_seq (pos 0) journal)
reduce-Ascending_example = reduce-Ascending journal final journal_reduces

reduce_from-err_example :
    (reduce_from new_projection acceptance ≡ err integrity)
    ↔ StopsAt new_projection acceptance integrity
reduce_from-err_example = reduce_from-err new_projection acceptance integrity

reduce-Indexed_example : Indexed final
reduce-Indexed_example = reduce-Indexed journal final journal_reduces

transition-Ends_example :
    Ends
      (λ s. s ≡ ready)
      (λ _ s. Transitioned initialization "T" validating ok ready s)
      (transition_task initialization "T" validating ok ready)
transition-Ends_example = transition-Ends initialization "T" validating ok ready

transition_succeeds_example :
    Ends
      (λ _. ⊥)
      (λ _ s. Transitioned initialization "T" validating ok ready s)
      (transition_task initialization "T" validating ok ready)
transition_succeeds_example =
    transition_succeeds initialization "T" validating ready delegated delegated_there
      delegated_valid.0 delegated_valid.1 delegated_valid.2 delegated_valid.3

reduce-Shows_example : Shows final
reduce-Shows_example = reduce-Shows initialization (planning ++ acceptance) final journal_reduces

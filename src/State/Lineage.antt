-- ===== src/State/Lineage.antt =====
-- internal/state/lineage.go: the preconditions that tie evidence and decisions to one attempt.
pub mod Outcomes
use dev_cadence.Prelude.{String, ◌==◌, not, ◌&&◌, ◌||◌, Option, none, some, is_some, List, [], ◌∷◌}
use dev_cadence.Dict.{Dict, get, put}
use dev_cadence.Errs.{
  Result, ok, err, refuse, ◌>>=◌, ◌>>◌, integrity, invalid_argument, invalid_transition, conflict,
}
use dev_cadence.Tasks.State.{State, state_eq}
use dev_cadence.Tasks.Task.{Task}
use dev_cadence.Tasks.Attempt.{Attempt, AttemptStatus, attempt_status_eq}
use dev_cadence.State.Projection.{EvidenceRef, Projection, task_of, attempt_of}

unfoldable pub require_task_in_state : Projection → String → State → Result Task
require_task_in_state p task_id want = do
  task ← task_of p task_id
  refuse (not (state_eq task.state want)) invalid_transition
  ok task

unfoldable pub require_attempt_of : Projection → String → String → Result Attempt
require_attempt_of p task_id attempt_id = do
  refuse (attempt_id == "") invalid_argument
  attempt ← attempt_of p attempt_id
  refuse (not (attempt.task_id == task_id)) integrity
  ok attempt

unfoldable pub require_candidate : Attempt → Result (Unit {0})
require_candidate a =
    refuse
      (not (attempt_status_eq a.status AttemptStatus.candidate_produced)
        || (a.candidate_commit == ""))
      integrity

unfoldable pub require_candidate_commit : Attempt → String → Result (Unit {0})
require_candidate_commit a claimed = do
  refuse (claimed == "") invalid_argument
  refuse (not (claimed == a.candidate_commit)) integrity

-- `recordEvidence`, which returns the index that it has written to.
unfoldable pub record_evidence : Dict EvidenceRef → String → EvidenceRef → Result (Dict EvidenceRef)
record_evidence index id ref = do refuse (is_some (get index id)) conflict; ok (put index id ref)

abbrev pub scope_attempt_evidence : String
scope_attempt_evidence = "attempt"

-- One cited id of `requireEvidenceFor`.
unfoldable pub evidence_for : Option EvidenceRef → Task → Attempt → Result (Unit {0})
evidence_for none task attempt = err integrity
evidence_for (some ref) task attempt = do
  refuse (not (ref.scope == "") && not (ref.scope == scope_attempt_evidence)) integrity
  refuse (not (ref.task_id == task.id)) integrity
  refuse (not (ref.attempt_id == attempt.id)) integrity
  refuse (not (ref.commit == "") && not (ref.commit == attempt.candidate_commit)) integrity

unfoldable pub require_evidence_for :
    Dict EvidenceRef → List String → Task → Attempt → Result (Unit {0})
require_evidence_for index [] task attempt = ok tt
require_evidence_for index (id ∷ ids) task attempt = do
  evidence_for (get index id) task attempt
  require_evidence_for index ids task attempt

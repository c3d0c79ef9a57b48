-- ===== src/State/Lineage/Outcomes.antt =====
-- What follows when a precondition of internal/state/lineage.go passes.
use dev_cadence.Prelude.{
  String, ◌≡◌, refl, ◌∙◌, true, false, not, ◌==◌, none, some, Option, List, [], ◌∷◌, is_empty,
  arith, eq_iff,
}
use dev_cadence.Dict.{Dict, get, put}
use dev_cadence.Errs.{ok, refuse, >>=-eq-ok, >>-eq-ok, refuse-eq-ok}
use dev_cadence.Tasks.State.{State, state_eq, unknown}
use dev_cadence.Tasks.Task.{Task}
use dev_cadence.Tasks.Attempt.{Attempt, AttemptStatus, attempt_status_eq}
use dev_cadence.State.Projection.{EvidenceRef, Projection, found, task_of, attempt_of}
use dev_cadence.State.Lineage.{
  require_task_in_state, require_attempt_of, require_candidate, require_candidate_commit,
  record_evidence, evidence_for, require_evidence_for,
}

pub found-eq-ok {ℓ} : {V : Type ℓ} (o : Option V) {v : V} → found o ≡ ok v → o ≡ some v
unfolding found
found-eq-ok none h = cc
found-eq-ok (some w) h = cc

pub task_of-eq-ok :
    (p : Projection) (id : String) {t : Task} → task_of p id ≡ ok t → get p.tasks id ≡ some t
unfolding task_of
task_of-eq-ok p id h = found-eq-ok (get p.tasks id) h

pub attempt_of-eq-ok :
    (p : Projection) (id : String) {a : Attempt}
    → attempt_of p id ≡ ok a
    → get p.attempts id ≡ some a
unfolding attempt_of
attempt_of-eq-ok p id h = found-eq-ok (get p.attempts id) h

state_eq→≡ : (s t : State) → state_eq s t ≡ true → s ≡ t
unfolding state_eq
state_eq→≡ (unknown x) (unknown y) h = ground (arith, eq_iff x y)
state_eq→≡ s t h = ground arith

pub require_task_in_state-ok :
    (p : Projection) (id : String) (want : State) {t : Task}
    → require_task_in_state p id want ≡ ok t
    → (get p.tasks id ≡ some t) × (t.state ≡ want)
unfolding require_task_in_state
require_task_in_state-ok p id want h =
    let (u, there, checked) = >>=-eq-ok (task_of p id) _ h in
    let (same, e) = >>-eq-ok (refuse (not (state_eq u.state want)) _) (ok u) checked in
    (
      task_of-eq-ok p id (there ∙ e),
      state_eq→≡ _ want (ground (arith, refuse-eq-ok (not (state_eq u.state want)) _ same, e)),
    )

pub require_attempt_of-ok :
    (p : Projection) (task_id id : String) {a : Attempt}
    → require_attempt_of p task_id id ≡ ok a
    → (get p.attempts id ≡ some a) × (a.task_id ≡ task_id)
unfolding require_attempt_of
require_attempt_of-ok p task_id id h =
    let (x, rest) = >>-eq-ok (refuse (id == "") _) _ h in
    let (b, there, checked) = >>=-eq-ok (attempt_of p id) _ rest in
    let (same, e) = >>-eq-ok (refuse (not (b.task_id == task_id)) _) (ok b) checked in
    (
      attempt_of-eq-ok p id (there ∙ e),
      ground (arith, refuse-eq-ok (not (b.task_id == task_id)) _ same, e, eq_iff b.task_id task_id),
    )

pub require_candidate-ok :
    (a : Attempt) {u : Unit {0}}
    → require_candidate a ≡ ok u
    → a.status ≡ AttemptStatus.candidate_produced
unfolding require_candidate attempt_status_eq
require_candidate-ok a h = ground arith

pub require_candidate_commit-ok :
    (a : Attempt) (claimed : String) {u : Unit {0}}
    → require_candidate_commit a claimed ≡ ok u
    → claimed ≡ a.candidate_commit
unfolding require_candidate_commit
require_candidate_commit-ok a claimed h = ground (arith, eq_iff claimed a.candidate_commit)

pub record_evidence-ok :
    (index : Dict EvidenceRef) (id : String) (ref : EvidenceRef) {m : Dict EvidenceRef}
    → record_evidence index id ref ≡ ok m
    → (get index id ≡ none) × (m ≡ put index id ref)
unfolding record_evidence
record_evidence-ok index id ref h = ground arith

-- A recorded item of evidence about the task and the attempt.
pub record Cites (index : Dict EvidenceRef) (task_id attempt_id : String) : Type 0 where
  pub id : String
  pub ref : EvidenceRef
  pub found : get index id ≡ some ref
  pub about : (ref.task_id ≡ task_id) × (ref.attempt_id ≡ attempt_id)

evidence_for-ok :
    (o : Option EvidenceRef) (t : Task) (a : Attempt)
    → evidence_for o t a ≡ ok tt
    → (ref : EvidenceRef) × (o ≡ some ref) × ((ref.task_id ≡ t.id) × (ref.attempt_id ≡ a.id))
unfolding evidence_for
evidence_for-ok none t a h = cc
evidence_for-ok (some ref) t a h =
    (ref, refl, ground (arith, eq_iff ref.task_id t.id, eq_iff ref.attempt_id a.id))

-- A list of citations that is not empty cites something.
pub require_evidence_for-Cites :
    (index : Dict EvidenceRef) (ids : List String) (t : Task) (a : Attempt) {u : Unit {0}}
    → is_empty ids ≡ false
    → require_evidence_for index ids t a ≡ ok u
    → Cites index t.id a.id
unfolding require_evidence_for
require_evidence_for-Cites index [] t a some_id h = cc
require_evidence_for-Cites index (id ∷ ids) t a some_id h =
    let (ref, found, about) =
      evidence_for-ok (get index id) t a
        (>>-eq-ok (evidence_for (get index id) t a) (require_evidence_for index ids t a) h).0 in
    record { id = id; ref = ref; found = found; about = about }

-- ===== src/State/Refine/Attempts.antt =====
-- The events that start and finish attempts (internal/state/reduce.go), as moves of the abstract machine.
use dev_cadence.Prelude.{
  String, ◌≡◌, ◌≢◌, refl, subst, inl, inr, true, false, ◌==◌, none, some, Option, List, [], ◌∷◌,
  contains, is_some, arith, eq_iff, Bool-cases,
}
use dev_cadence.Dict.{get, put}
use dev_cadence.Errs.{ok}
use dev_cadence.Tasks.State.{State, state_eq, check_transition}
use dev_cadence.Tasks.Attempt.{
  Attempt, AttemptStatus, attempt_status_eq, check_attempt_transition, attempt_validate,
}
use dev_cadence.Tasks.Attempt.Course.{check_attempt_transition_outcomes}
use dev_cadence.Events.Execution.{AttemptStarted, CandidateProduced, AttemptBlocked, AttemptFailed}
use dev_cadence.Events.Envelope.{Event}
use dev_cadence.State.Exec.{
  Ends, ask_rule, bind_rule, lift_rule, check_rule, modify_rule, modify-Ends, ok-Ends,
  Ends-no_error, pure,
}
use dev_cadence.State.Projection.{Projection, listed, attempt_of}
use dev_cadence.State.Lineage.Outcomes.{task_of-eq-ok, attempt_of-eq-ok}
use dev_cadence.State.Attempts.{
  refuse_running, attempts_at, new_attempt, apply_attempt_started, finish_attempt,
  apply_candidate_produced, apply_attempt_blocked, apply_attempt_failed,
}
use dev_cadence.State.Core.{core, Records, start, finish, SameAttempt}
use dev_cadence.State.Sound.{Sound}
use dev_cadence.State.Refine.{Refines, recording, plain_moved, transition_succeeds, edge_checked}

is_some-false {ℓ} : {A : Type ℓ} (o : Option A) → is_some o ≡ false → o ≡ none
is_some-false none h = refl
is_some-false (some a) h = cc

passed_first :
    (o : Option Attempt) (later : List (Option Attempt))
    → refuse_running (o ∷ later) ≡ ok tt
    → ((a : Attempt) → o ≡ some a → a.status ≢ AttemptStatus.running)
      × (refuse_running later ≡ ok tt)
unfolding refuse_running attempt_status_eq
passed_first none later h = cc
passed_first (some a) later h = (λ b e r. ground arith, ground arith)

-- An attempt that the loop has passed is not RUNNING.
refuse_running-pass :
    (p : Projection) (ids : List String) (id : String) (a : Attempt)
    → refuse_running (attempts_at p ids) ≡ ok tt
    → contains ids id ≡ true
    → get p.attempts id ≡ some a
    → a.status ≢ AttemptStatus.running
unfolding attempts_at
refuse_running-pass p [] id a passed mem h = cc
refuse_running-pass p (i ∷ ids) id a passed mem h =
    let (first, rest) = passed_first (get p.attempts i) (attempts_at p ids) passed in
    elim (Bool-cases (i == id)) [
      | inl k ↦ first a (ground (arith, eq_iff i id))
      | inr k ↦ refuse_running-pass p ids id a rest (ground arith) h
    ]

module _ (p : Projection) (e : Event) (s : Sound (core p)) where
  pub attempt_started-Refines : (q : AttemptStarted) → Refines p (apply_attempt_started e q)
  unfolding apply_attempt_started state_eq new_attempt
  attempt_started-Refines q = ask_rule _ _ (
      lift_rule _ _ _ refl λ task there. check_rule _ _ _ _ refl λ at_running.
        check_rule _ _ _ _ refl λ _. check_rule _ _ _ _ refl λ _. check_rule _ _ _ _ refl λ fresh.
          lift_rule _ _ _ refl λ _ none_running. lift_rule _ _ _ refl λ _ valid. modify-Ends _ _ (
            recording (
              start task _ e.seq (task_of-eq-ok p q.task_id there) (ground arith)
                (is_some-false _ fresh)
                (λ id b hb own.
                  refuse_running-pass p _ id b none_running
                    (subst (λ k. contains (listed (get p.attempts_by_task k)) id ≡ true) own
                      (s.all_listed id b hb))
                    hb)
                refl valid refl)))

-- What a `mutate` of an attempt leaves alone.
record Keeps (mutate : Attempt → Attempt) : Type 0 where
  same : (a : Attempt) → SameAttempt a (mutate a)
  status : (a : Attempt) → (mutate a).status ≡ a.status

abbrev Finished : Projection → Projection → Type 0
Finished p s = Records (core p) (core s) × (s.tasks ≡ p.tasks)

-- `finishAttempt` records the end of a RUNNING attempt, or changes nothing.
finish_attempt-Ends :
    (e : Event) (task_id id : String) (to : AttemptStatus) (mutate : Attempt → Attempt)
    (p : Projection)
    → Keeps mutate
    → Ends (λ s. s ≡ p) (λ _ s. Finished p s) (finish_attempt e task_id id to mutate p)
unfolding finish_attempt pure
finish_attempt-Ends e task_id id to mutate p keeps = ask_rule _ _ (
    lift_rule _ _ _ refl λ a there. check_rule _ _ _ _ refl λ _. lift_rule _ _ _ refl λ _ legal.
      lift_rule _ _ _ refl
        λ _ valid. modify_rule _ _ _ (ok-Ends _ _ (recorded a there legal valid, refl)))
  where
    recorded :
        (a : Attempt) {u v : Unit {0}}
        → attempt_of p id ≡ ok a
        → check_attempt_transition a.status to ≡ ok u
        → attempt_validate (
            mutate
              (record a { status = to; finished_at = some e.occurred_at; updated_seq = e.seq }))
          ≡ ok v
        → Records (core p) (
            core (record p {
              attempts = put p.attempts id (
                  mutate (record a {
                    status = to;
                    finished_at = some e.occurred_at;
                    updated_seq = e.seq;
                  }));
            }))
    recorded a there legal valid =
        let b : Attempt = record a {
          status = to;
          finished_at = some e.occurred_at;
          updated_seq = e.seq;
        } in
        let (running, ended) = (check_attempt_transition_outcomes a.status to).0.0 legal in
        let same = keeps.same b in
        finish id a (mutate b) (attempt_of-eq-ok p id there) running (rw (keeps.status b) ended)
          valid
          (record {
            id = same.id;
            task_id = same.task_id;
            ordinal = same.ordinal;
            work_package_id = same.work_package_id;
            work_package_version = same.work_package_version;
            base_commit = same.base_commit;
            started_at = same.started_at;
            created_seq = same.created_seq;
          })
          refl

produces_from_open :
    (s : State) {u : Unit {0}}
    → check_transition s State.validating ≡ ok u
    → state_eq s State.blocked ≡ false
unfolding check_transition
produces_from_open s h = ground arith

module _ (p : Projection) (e : Event) (s : Sound (core p)) where
  pub candidate_produced-Refines :
      (q : CandidateProduced) → Refines p (apply_candidate_produced e q)
  unfolding apply_candidate_produced
  candidate_produced-Refines q = ask_rule _ _ (
      lift_rule _ _ _ refl λ task there. lift_rule _ _ _ refl λ _ legal.
        bind_rule _ _ _
          (finish_attempt-Ends e q.task_id q.attempt_id _ _ p
            (record { same = λ a. ground arith; status = λ a. refl }))
          λ a t h.
            Ends-no_error
              (λ _ u moved. record {
                between = core t;
                recorded = h.0;
                shifted = plain_moved (λ x. cc) moved;
              })
              (transition_succeeds e q.task_id State.validating t task
                (rw h.1 (task_of-eq-ok p q.task_id there))
                (s.tasks_valid q.task_id task (task_of-eq-ok p q.task_id there)).1
                (edge_checked task.state State.validating legal)
                (produces_from_open task.state legal) (unfold state_eq in refl)))

  pub attempt_blocked-Refines : (q : AttemptBlocked) → Refines p (apply_attempt_blocked e q)
  unfolding apply_attempt_blocked pure
  attempt_blocked-Refines q =
      bind_rule _ _ _
        (finish_attempt-Ends e q.task_id q.attempt_id _ _ p
          (record { same = λ a. ground arith; status = λ a. refl }))
        λ a t h. ok-Ends tt t (recording h.0)

  pub attempt_failed-Refines : (q : AttemptFailed) → Refines p (apply_attempt_failed e q)
  unfolding apply_attempt_failed pure
  attempt_failed-Refines q =
      bind_rule _ _ _
        (finish_attempt-Ends e q.task_id q.attempt_id _ _ p
          (record { same = λ a. ground arith; status = λ a. refl }))
        λ a t h. ok-Ends tt t (recording h.0)

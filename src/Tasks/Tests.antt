-- ===== src/Tasks/Tests.antt =====
-- The theorems about the lifecycle of tasks and attempts, at concrete states.
use dev_cadence.Prelude.{◌≡◌, ◌≢◌, ◌⊎◌, ◌↔◌, [], refl, true, false, arith}
use dev_cadence.Errs.{ok, err, integrity, invalid_argument}
use dev_cadence.Protocol.Delivery.{DecisionAuthority}
use dev_cadence.Tasks.State.{
  State, proposed, designing, ready, reviewing, accepted, done, blocked, state_valid, state_mem,
  allowed, can_transition, check_transition, Bucket, buckets,
}
use dev_cadence.Tasks.State.Edges.{
  ◌⟶◌, can_transition-allowed, can_transition_iff, check_transition_outcomes,
}
use dev_cadence.Tasks.State.Paths.{Walk, last, way, Walk-enters, done_iff_stuck, way_reaches_done}
use dev_cadence.Tasks.State.Bucketing.{in_bucket, awaiting_principal_iff, buckets_empty_iff}
use dev_cadence.Tasks.Attempt.{
  AttemptStatus, attempt_status_valid, attempt_terminal, check_attempt_transition,
}
use dev_cadence.Tasks.Attempt.Course.{check_attempt_transition_outcomes}

Walk-enters_example : state_mem (way proposed) reviewing ≡ true
unfolding way can_transition
Walk-enters_example =
    Walk-enters proposed reviewing (way proposed)
      (refl, (refl, (refl, (refl, (refl, (refl, (refl, (refl, (refl, tt))))))))) (omega arith)
      (omega arith) (omega arith)

done_iff_stuck_example :
    ((reviewing ≡ done) × ((t : State) → can_transition reviewing t ≡ false))
    ⊎ ((reviewing ≢ done) × (t : State) × (can_transition reviewing t ≡ true))
unfolding state_valid
done_iff_stuck_example = done_iff_stuck reviewing refl

way_reaches_done_example : Walk blocked (way blocked) × (last blocked (way blocked) ≡ done)
unfolding state_valid
way_reaches_done_example = way_reaches_done blocked refl

can_transition-allowed_example :
    can_transition reviewing accepted ≡ state_mem (allowed reviewing) accepted
can_transition-allowed_example = can_transition-allowed reviewing accepted

can_transition_iff_example : (can_transition reviewing accepted ≡ true) ↔ (reviewing ⟶ accepted)
can_transition_iff_example = can_transition_iff reviewing accepted

check_transition_outcomes_example :
    ((check_transition ready done ≡ err integrity) ↔ (state_valid ready ≡ false))
    × ((check_transition ready done ≡ err invalid_argument)
        ↔ ((state_valid ready ≡ true) × (state_valid done ≡ false)))
    × ((check_transition ready done ≡ ok tt) ↔ (can_transition ready done ≡ true))
check_transition_outcomes_example = check_transition_outcomes ready done

awaiting_principal_iff_example :
    (in_bucket (buckets blocked DecisionAuthority.principal) Bucket.awaiting_principal ≡ true) ↔ (
      (State.blocked ≡ designing)
      ⊎ ((State.blocked ≡ State.blocked)
          × (DecisionAuthority.principal ≡ DecisionAuthority.principal)))
awaiting_principal_iff_example = awaiting_principal_iff blocked DecisionAuthority.principal

buckets_empty_iff_example :
    (buckets accepted DecisionAuthority.policy ≡ [])
    ↔ ((accepted ≡ proposed) ⊎ (accepted ≡ accepted) ⊎ (accepted ≡ done))
unfolding state_valid
buckets_empty_iff_example = buckets_empty_iff accepted DecisionAuthority.policy refl

check_attempt_transition_outcomes_example :
    ((check_attempt_transition AttemptStatus.running AttemptStatus.failed ≡ ok tt) ↔ (
      (AttemptStatus.running ≡ AttemptStatus.running)
      × (attempt_terminal AttemptStatus.failed ≡ true)))
    × ((check_attempt_transition AttemptStatus.running AttemptStatus.failed ≡ err integrity)
        ↔ (attempt_status_valid AttemptStatus.running ≡ false))
    × ((check_attempt_transition AttemptStatus.running AttemptStatus.failed ≡ err invalid_argument)
        ↔ ((attempt_status_valid AttemptStatus.running ≡ true)
            × (attempt_status_valid AttemptStatus.failed ≡ false)))
check_attempt_transition_outcomes_example =
    check_attempt_transition_outcomes AttemptStatus.running AttemptStatus.failed

-- ===== src/Tasks/State/Edges.antt =====
-- What `CanTransition` and `CheckTransition` of internal/tasks/state.go accept.
use dev_cadence.Prelude.{◌≡◌, refl, ◌↔◌, true, false, arith}
use dev_cadence.Errs.{ok, err, integrity, invalid_argument}
use dev_cadence.Tasks.State.{
  State, proposed, scouting, designing, ready, running, validating, reviewing, accepted,
  integrating, integration_validating, done, blocked, unknown, state_valid, state_mem, active,
  allowed, can_transition, check_transition,
}

-- The edges of the lifecycle as a relation.
infix 40 ◌⟶◌
pub data ◌⟶◌ : State → State → Type 0 where
  scout : proposed ⟶ scouting
  design : proposed ⟶ designing
  report : scouting ⟶ designing
  approve : designing ⟶ ready
  delegate : ready ⟶ running
  produce : running ⟶ validating
  fail : validating ⟶ running
  pass : validating ⟶ reviewing
  reject : reviewing ⟶ running
  accept : reviewing ⟶ accepted
  integrate : accepted ⟶ integrating
  verify : integrating ⟶ integration_validating
  finish : integration_validating ⟶ done
  resume : blocked ⟶ designing
  escalate : {s : State} → active s ≡ true → s ⟶ blocked

ruleset edges = (
  scout, design, report, approve, delegate, produce, fail, pass, reject, accept, integrate, verify,
  finish, resume,
)

-- `CanTransition` and `Allowed` agree on every pair of states, unknown ones included.
pub can_transition-allowed : (s t : State) → can_transition s t ≡ state_mem (allowed s) t
unfolding can_transition allowed
can_transition-allowed (unknown x) t = refl
can_transition-allowed s t = ground arith

can_transition→⟶ : (s t : State) → can_transition s t ≡ true → s ⟶ t
unfolding can_transition
can_transition→⟶ s t h = grind (arith, edges, escalate)

⟶→can_transition : {s t : State} → s ⟶ t → can_transition s t ≡ true
unfolding can_transition
⟶→can_transition (escalate {s} h) = ground arith
⟶→can_transition scout = refl
⟶→can_transition _ = refl

-- `CanTransition` accepts exactly the edges of the lifecycle: the fourteen listed ones, and one to
-- BLOCKED from every active state.
pub can_transition_iff : (s t : State) → (can_transition s t ≡ true) ↔ (s ⟶ t)
can_transition_iff s t = (can_transition→⟶ s t, ⟶→can_transition)

-- `CheckTransition` reports an integrity error exactly for an unknown stored state, an invalid
-- argument exactly for a known stored state and an unknown target, and succeeds exactly where
-- `CanTransition` does.
pub check_transition_outcomes :
    (s t : State)
    → ((check_transition s t ≡ err integrity) ↔ (state_valid s ≡ false))
      × ((check_transition s t ≡ err invalid_argument)
          ↔ ((state_valid s ≡ true) × (state_valid t ≡ false)))
      × ((check_transition s t ≡ ok tt) ↔ (can_transition s t ≡ true))
unfolding check_transition
check_transition_outcomes s t = ground arith

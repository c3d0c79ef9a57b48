-- ===== src/Tasks/State/Paths.antt =====
-- What a sequence of transitions of internal/tasks/state.go can do.
use dev_cadence.Prelude.{
  ℕ, ◌+◌, ◌≤◌, ◌<◌, ◌≡◌, ◌≢◌, refl, ◌⊎◌, inl, inr, true, false, List, [], ◌∷◌, arith, Bool-cases,
}
use dev_cadence.Tasks.State.{
  State, proposed, scouting, designing, ready, running, validating, reviewing, accepted,
  integrating, integration_validating, done, blocked, unknown, state_valid, state_eq, state_mem,
  can_transition,
}

-- `walk s ts`: from `s`, the states `ts` are entered one after the other by legal transitions.
abbrev pub Walk : State → List State → Type 0
Walk s [] = Unit
Walk s (t ∷ ts) = (can_transition s t ≡ true) × Walk t ts

abbrev pub last : State → List State → State
last s [] = s
last s (t ∷ ts) = last t ts

-- How far along the lifecycle a state is. Only design is shared, with a block that leads back to it.
abbrev pub stage : State → ℕ
stage proposed = 1
stage scouting = 1
stage designing = 2
stage blocked = 2
stage ready = 3
stage running = 4
stage validating = 5
stage reviewing = 6
stage accepted = 7
stage integrating = 8
stage integration_validating = 9
stage done = 10
stage (unknown s) = 0

stage-step : (s t : State) → can_transition s t ≡ true → stage t ≤ stage s + 1
unfolding can_transition
stage-step s t h = ground arith

state_eq_refl : (s : State) → 3 ≤ stage s → state_eq s s ≡ true
unfolding state_eq
state_eq_refl (unknown s) h = absurd (omega arith)
state_eq_refl _ h = ground arith

-- From design on, a stage belongs to one state.
stage_injective : (s t : State) → 3 ≤ stage s → stage t ≡ stage s → t ≡ s
stage_injective s t h e = ground arith

-- Along legal edges no stage from READY on can be skipped, whatever repairs and blocks lie between:
-- a walk from a state of a lower stage than `x`, where `x` is of READY's stage or a later one, that
-- ends at the stage of `x` or beyond it has entered `x`.
pub Walk-enters :
    (s x : State) (ts : List State)
    → Walk s ts
    → stage s < stage x
    → 3 ≤ stage x
    → stage x ≤ stage (last s ts)
    → state_mem ts x ≡ true
unfolding state_mem
Walk-enters s x [] w below from reached = absurd (omega arith)
Walk-enters s x (t ∷ ts) w below from reached = elim (Bool-cases (state_eq t x)) [
  | inl e ↦ rw e
  | inr e ↦ rw e (Walk-enters t x ts w.1 (stage_below e) from reached)
]
  where
    stage_below : state_eq t x ≡ false → stage t < stage x
    stage_below e =
        ground (arith, stage-step s t w.0, stage_injective x t from, state_eq_refl x from)

done_absorbs : (t : State) → can_transition done t ≡ false
unfolding can_transition
done_absorbs t = ground arith

-- A known state is DONE, and then no edge leaves it, or it is another one, and then some edge does.
pub done_iff_stuck :
    (s : State)
    → state_valid s ≡ true
    → ((s ≡ done) × ((t : State) → can_transition s t ≡ false))
      ⊎ ((s ≢ done) × (t : State) × (can_transition s t ≡ true))
unfolding state_valid can_transition
done_iff_stuck done h = inl (refl, done_absorbs)
done_iff_stuck (unknown x) h = ground arith
done_iff_stuck blocked h = inr (λ e. cc, designing, refl)
done_iff_stuck _ h = inr (λ e. cc, blocked, refl)

abbrev from_reviewing : List State
from_reviewing = accepted ∷ integrating ∷ integration_validating ∷ done ∷ []

abbrev from_running : List State
from_running = validating ∷ reviewing ∷ from_reviewing

abbrev from_designing : List State
from_designing = ready ∷ running ∷ from_running

-- A way to DONE from each known state.
unfoldable pub way : State → List State
way proposed = designing ∷ from_designing
way scouting = designing ∷ from_designing
way designing = from_designing
way blocked = designing ∷ from_designing
way ready = running ∷ from_running
way running = from_running
way validating = reviewing ∷ from_reviewing
way reviewing = from_reviewing
way accepted = integrating ∷ integration_validating ∷ done ∷ []
way integrating = integration_validating ∷ done ∷ []
way integration_validating = done ∷ []
way _ = []

-- From every known state, BLOCKED included, there is a way along legal edges that ends in DONE.
pub way_reaches_done : (s : State) → state_valid s ≡ true → Walk s (way s) × (last s (way s) ≡ done)
unfolding state_valid can_transition way
way_reaches_done (unknown x) h = ground arith
way_reaches_done _ h = ground arith

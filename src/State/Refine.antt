-- ===== src/State/Refine.antt =====
-- The reducer of internal/state beside the abstract machine: shared definitions, and `transitionTask`.
pub mod Facts
pub mod Delivery
pub mod Attempts
pub mod Evidence
pub mod Acceptance
pub mod Apply
use dev_cadence.Prelude.{
  ℤ, String, ◌≡◌, ◌≢◌, ◌⊎◌, refl, sym, ap, ◌∙◌, inl, inr, true, false, Bool, not, Option, none,
  some, arith,
}
use dev_cadence.Dict.{get, put}
use dev_cadence.Errs.{Result, ok, err, ok_injective}
use dev_cadence.Tasks.State.{State, state_valid, state_eq, can_transition, check_transition}
use dev_cadence.Tasks.State.Edges.{check_transition_outcomes}
use dev_cadence.Tasks.Task.{Task, task_validate}
use dev_cadence.Tasks.Attempt.{Attempt}
use dev_cadence.Events.Envelope.{Event}
use dev_cadence.State.Exec.{Exec, Ends, ask_rule, lift_rule, lift_ok_rule, modify-Ends}
use dev_cadence.State.Projection.{Projection, found, task_of, attempt_of}
use dev_cadence.State.Delivery.{transition_task}
use dev_cadence.State.Lineage.Outcomes.{task_of-eq-ok}
use dev_cadence.State.Core.{
  Core, core, Records, nothing, Shifts, stay, move, SameTask, SamePlan, Move,
}
use dev_cadence.State.Sound.{Sound}

-- With an error the projection is as it was; with success its core has made a move.
abbrev pub Refines : Projection → Exec Projection (Unit {0}) → Type 0
Refines p m = Ends (λ s. s ≡ p) (λ _ s. Move (core p) (core s)) (m p)

pub still : {c d : Core} → d ≡ c → Move c d
still {c} e = record { between = c; recorded = nothing refl; shifted = stay e }

pub shift : {c d : Core} → Shifts c d → Move c d
shift {c} s = record { between = c; recorded = nothing refl; shifted = s }

pub recording : {c d : Core} → Records c d → Move c d
recording {d} r = record { between = d; recorded = r; shifted = stay refl }

-- What `transitionTask` has done when it succeeds.
pub record Transitioned (e : Event) (id : String) (to : State) (mutate : Task → Result Task)
    (p s : Projection) : Type 0 where
  pub task : Task
  pub mutated : Task
  pub was_there : get p.tasks id ≡ some task
  pub edge : can_transition task.state to ≡ true
  pub by_mutate : mutate (record task { state = to }) ≡ ok mutated
  pub valid : task_validate (record mutated { updated_seq = e.seq }) ≡ ok tt
  pub result : s ≡ record p { tasks = put p.tasks id (record mutated { updated_seq = e.seq }) }

pub edge_checked :
    (s t : State) {u : Unit {0}} → check_transition s t ≡ ok u → can_transition s t ≡ true
edge_checked s t h = (check_transition_outcomes s t).2.0 h

edge_to_known : (s t : State) → can_transition s t ≡ true → state_valid t ≡ true
unfolding can_transition
edge_to_known s t h = ground arith

-- `transitionTask` leaves the projection as it was when it fails. When it succeeds, the task was
-- there, the edge is legal, `mutate` accepted the task in its new state, the result is valid, and
-- that result, stamped with the event's sequence number, is the only change to the projection.
pub transition-Ends :
    (e : Event) (id : String) (to : State) (mutate : Task → Result Task) (p : Projection)
    → Ends (λ s. s ≡ p) (λ _ s. Transitioned e id to mutate p s) (transition_task e id to mutate p)
unfolding transition_task
transition-Ends e id to mutate p = ask_rule _ _ (
    lift_rule _ _ _ refl λ task there. lift_rule _ _ _ refl λ _ legal.
      lift_rule _ _ _ refl λ m changed. lift_rule _ _ _ refl λ _ valid. modify-Ends _ _ (record {
        task = task;
        mutated = m;
        was_there = task_of-eq-ok p id there;
        edge = edge_checked task.state to legal;
        by_mutate = changed;
        valid = valid;
        result = refl;
      }))

-- What a `mutate` leaves alone.
pub record Respects (mutate : Task → Result Task) : Type 0 where
  pub same : (t m : Task) → mutate t ≡ ok m → SameTask t m
  pub state : (t m : Task) → mutate t ≡ ok m → m.state ≡ t.state

pub moved :
    {e : Event} {id : String} {to : State} {mutate : Task → Result Task} {p s : Projection}
    → Respects mutate
    → to ≢ State.accepted
    → ((t m : Task)
        → can_transition t.state to ≡ true
        → mutate (record t { state = to }) ≡ ok m
        → (t.state ≡ State.designing) ⊎ SamePlan t m)
    → Transitioned e id to mutate p s
    → Shifts (core p) (core s)
moved {e} {id} {to} respects ne plan h =
    move id h.task (record h.mutated { updated_seq = e.seq }) h.was_there
      (rw (respects.state _ _ h.by_mutate) h.edge) (rw (respects.state _ _ h.by_mutate) ne)
      (same_plan (plan h.task h.mutated h.edge h.by_mutate)) h.valid
      (same_task (respects.same _ _ h.by_mutate)) (ap core h.result)
  where
    same_plan :
        (h.task.state ≡ State.designing) ⊎ SamePlan h.task h.mutated
        → (h.task.state ≡ State.designing)
          ⊎ SamePlan h.task (record h.mutated { updated_seq = e.seq })
    same_plan c = ground arith

    same_task :
        SameTask (record h.task { state = to }) h.mutated
        → SameTask h.task (record h.mutated { updated_seq = e.seq })
    same_task c = record {
      id = c.id;
      project_id = c.project_id;
      alias = c.alias;
      title = c.title;
      milestone_id = c.milestone_id;
      created_seq = c.created_seq;
    }

-- A transition with no `mutate` changes the state and nothing of the plan.
pub ok-Respects : Respects ok
ok-Respects = record {
  same = λ t m h. record {
    id = ok_path (λ (x : Task). x.id) h;
    project_id = ok_path (λ (x : Task). x.project_id) h;
    alias = ok_path (λ (x : Task). x.alias) h;
    title = ok_path (λ (x : Task). x.title) h;
    milestone_id = ok_path (λ (x : Task). x.milestone_id) h;
    created_seq = ok_path (λ (x : Task). x.created_seq) h;
  };
  state = λ t m h. ok_path (λ (x : Task). x.state) h;
}
  where
    ok_path : {t m : Task} {B : Type 0} (f : Task → B) → ok t ≡ ok m → f m ≡ f t
    ok_path f h = cc

pub plain_moved :
    {e : Event} {id : String} {to : State} {p s : Projection}
    → to ≢ State.accepted
    → Transitioned e id to ok p s
    → Shifts (core p) (core s)
plain_moved ne h = moved ok-Respects ne (λ t m edge c. inr (ground (arith, ok_injective c))) h

-- The checks of a task do not read its place in the journal, and of its state only whether it is
-- known and whether it is BLOCKED.
moved_valid :
    (t : Task) (to : State) (seq : ℤ)
    → task_validate t ≡ ok tt
    → state_valid to ≡ true
    → state_eq to State.blocked ≡ state_eq t.state State.blocked
    → task_validate (record t { state = to; updated_seq = seq }) ≡ ok tt
unfolding task_validate
moved_valid t to seq valid known same = ground arith

-- `transitionTask` with no `mutate` cannot fail for a task that is there and valid, along a legal
-- edge between states other than BLOCKED.
pub transition_succeeds :
    (e : Event) (id : String) (to : State) (p : Projection) (task : Task)
    → get p.tasks id ≡ some task
    → task_validate task ≡ ok tt
    → can_transition task.state to ≡ true
    → state_eq task.state State.blocked ≡ false
    → state_eq to State.blocked ≡ false
    → Ends (λ _. ⊥) (λ _ s. Transitioned e id to ok p s) (transition_task e id to ok p)
unfolding transition_task task_of found
transition_succeeds e id to p task there valid edge from_open to_open = ask_rule _ _ (
    lift_ok_rule task _ _ (rw there) (
      lift_ok_rule tt _ _ ((check_transition_outcomes task.state to).2.1 edge) (
        lift_ok_rule (record task { state = to }) _ _ refl
          (lift_ok_rule tt _ _ still_valid (
            modify-Ends _ _ (record {
              task = task;
              mutated = record task { state = to };
              was_there = there;
              edge = edge;
              by_mutate = refl;
              valid = still_valid;
              result = refl;
            }))))))
  where
    still_valid : task_validate (record task { state = to; updated_seq = e.seq }) ≡ ok tt
    still_valid =
        moved_valid task to e.seq valid (edge_to_known task.state to edge) (to_open ∙ sym from_open)

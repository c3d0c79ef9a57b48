-- ===== src/State/Refine/Delivery.antt =====
-- The events that create a task or move it (internal/state/reduce.go), as moves of the abstract machine.
use dev_cadence.Prelude.{
  ◌≡◌, ◌≢◌, ◌⊎◌, refl, inl, inr, String, true, false, none, some, Option, is_some, arith,
}
use dev_cadence.Errs.{Result, ok}
use dev_cadence.Tasks.State.{State, can_transition}
use dev_cadence.Tasks.Task.{Task}
use dev_cadence.Events.Envelope.{Event}
use dev_cadence.Events.Planning.{
  TaskCreated, WorkPackageProposed, WorkPackageApproved, TaskDelegated,
}
use dev_cadence.State.Exec.{ask_rule, lift_rule, check_rule, modify-Ends, Ends-mono}
use dev_cadence.State.Projection.{Projection}
use dev_cadence.State.Delivery.{
  transition_task, apply_task_created, apply_work_package_proposed, approve_work_package,
  apply_work_package_approved, delegate_task, apply_task_delegated,
}
use dev_cadence.State.Core.{create, SamePlan}
use dev_cadence.State.Refine.{Refines, still, shift, Respects, transition-Ends, moved, plain_moved}

is_some-false {ℓ} : {A : Type ℓ} (o : Option A) → is_some o ≡ false → o ≡ none
is_some-false none h = refl
is_some-false (some a) h = cc

pub plain-Refines :
    (p : Projection) (e : Event) (id : String) (to : State)
    → to ≢ State.accepted
    → Refines p (transition_task e id to ok)
plain-Refines p e id to ne =
    Ends-mono (λ _ s h. shift (plain_moved ne h)) (transition-Ends e id to ok p)

pub moved-Refines :
    (p : Projection) (e : Event) (id : String) (to : State) (mutate : Task → Result Task)
    → Respects mutate
    → to ≢ State.accepted
    → ((t m : Task)
        → can_transition t.state to ≡ true
        → mutate (record t { state = to }) ≡ ok m
        → (t.state ≡ State.designing) ⊎ SamePlan t m)
    → Refines p (transition_task e id to mutate)
moved-Refines p e id to mutate respects ne plan =
    Ends-mono (λ _ s h. shift (moved respects ne plan h)) (transition-Ends e id to mutate p)

module _ (p : Projection) (e : Event) where
  pub task_created-Refines : (q : TaskCreated) → Refines p (apply_task_created e q)
  unfolding apply_task_created
  task_created-Refines q = ask_rule _ _ (
      check_rule _ _ _ _ refl λ new_id. check_rule _ _ _ _ refl λ new_alias.
        lift_rule _ _ _ refl λ _ valid.
          modify-Ends _ _
            (shift (create _ (is_some-false _ new_id) (is_some-false _ new_alias) refl valid refl)))

  pub work_package_proposed-Refines :
      (q : WorkPackageProposed) → Refines p (apply_work_package_proposed q)
  unfolding apply_work_package_proposed
  work_package_proposed-Refines q = ask_rule _ _ (
      lift_rule _ _ _ refl λ task _.
        check_rule _ _ _ _ refl λ _. check_rule _ _ _ _ refl λ _. modify-Ends _ _ (still refl))

  -- Leaving BLOCKED drops the reason and keeps the plan.
  pub design_started-Refines :
      (id : String)
      → Refines p
          (transition_task e id State.designing (λ t. ok (record t { blocked_reason = none })))
  design_started-Refines id =
      moved-Refines p e id State.designing _
        (record { same = λ t m h. ground arith; state = λ t m h. ground arith }) (λ h. cc)
        (λ t m _ h. inr (ground arith))

  pub work_package_approved-Refines :
      (q : WorkPackageApproved) → Refines p (apply_work_package_approved e q)
  unfolding apply_work_package_approved approve_work_package can_transition
  work_package_approved-Refines q =
      moved-Refines p e q.task_id State.ready _
        (record { same = λ t m h. ground arith; state = λ t m h. ground arith }) (λ h. cc)
        (λ t m edge h. inl (ground arith))

  pub task_delegated-Refines : (q : TaskDelegated) → Refines p (apply_task_delegated e q)
  unfolding apply_task_delegated delegate_task
  task_delegated-Refines q =
      moved-Refines p e q.task_id State.running _
        (record { same = λ t m h. ground arith; state = λ t m h. ground arith }) (λ h. cc)
        (λ t m edge h. inr (ground arith))

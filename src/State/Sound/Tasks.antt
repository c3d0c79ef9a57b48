-- ===== src/State/Sound/Tasks.antt =====
-- Creating a task and moving it along the lifecycle, and the invariant of the lineage.
use dev_cadence.Prelude.{
  String, ◌≡◌, ◌≢◌, ◌⊎◌, ◌∙◌, true, none, some, inl, inr, Bool-cases, ◌==◌, arith,
}
use dev_cadence.Dict.{get, get-put, get-put_inv, get-put_fresh, get-put_self, get-put_ne}
use dev_cadence.Errs.{ok}
use dev_cadence.Tasks.State.{State, can_transition}
use dev_cadence.Tasks.Task.{Task, task_validate}
use dev_cadence.State.Core.{Core, IsJustified, SameTask, SamePlan, with_task, with_new_task}
use dev_cadence.State.Sound.{
  Sound, Grows, IsAbout-Grows, IsJustified-Grows, IsJustified-SamePlan, is_accepted,
}

module _ (c : Core) (t : Task) (fresh : get c.tasks t.id ≡ none)
    (free : get c.aliases t.alias ≡ none) where
  pub create-Grows : Grows c (with_new_task c t)
  create-Grows = record {
    candidates = λ j x h p. h;
    validations = λ j r h. h;
    reviews = λ j r h. h;
  }

  pub create-Sound :
      t.state ≡ State.proposed → task_validate t ≡ ok tt → Sound c → Sound (with_new_task c t)
  create-Sound at_proposed valid s = record {
    tasks_valid = λ j x h. elim (get-put_inv c.tasks t.id j t x h) [
      | inl e ↦ rw (← e.1) (e.0, valid)
      | inr e ↦ s.tasks_valid j x e.1
    ];
    attempts_valid = s.attempts_valid;
    attempts_owned = λ j x h.
        let (u, hu) = s.attempts_owned j x h in
        (u, get-put_fresh c.tasks t.id x.task_id t u fresh hu);
    listed_exist = s.listed_exist;
    all_listed = s.all_listed;
    one_running = s.one_running;
    aliases_own = λ j x h. elim (get-put_inv c.tasks t.id j t x h) [
      | inl e ↦ rw (← e.1, ← e.0) (get-put_self c.aliases t.alias t.id)
      | inr e ↦ get-put_fresh c.aliases t.alias x.alias t.id j free (s.aliases_own j x e.1)
    ];
    validations_about = λ v r h sc. IsAbout-Grows create-Grows (s.validations_about v r h sc);
    reviews_about = λ v r h sc. IsAbout-Grows create-Grows (s.reviews_about v r h sc);
    justified = λ k u h acc. elim (get-put_inv c.tasks t.id k t u h) [
      | inl e ↦ absurd (ground (arith, e.1))
      | inr e ↦ IsJustified-Grows create-Grows (s.justified k u e.1 acc)
    ];
  }

-- A task that is accepted after an edge was accepted before it, or has just been accepted.
accepted_before :
    (x y : State)
    → can_transition x y ≡ true
    → y ≢ State.accepted
    → is_accepted y ≡ true
    → (is_accepted x ≡ true) × (x ≢ State.designing)
unfolding can_transition
accepted_before x y h ne acc = ground arith

module _ (c : Core) (id : String) (t u : Task) (found : get c.tasks id ≡ some t)
    (same : SameTask t u) where
  pub move-Grows : Grows c (with_task c id u)
  move-Grows = record { candidates = λ j x h p. h; validations = λ j r h. h; reviews = λ j r h. h }

  still_owned :
      (k : String)
      → (x : Task) × (get c.tasks k ≡ some x)
      → (x : Task) × (get (with_task c id u).tasks k ≡ some x)
  still_owned k (x, h) = elim (Bool-cases (id == k)) [
    | inl e ↦ (u, ground (arith, get-put c.tasks id k u))
    | inr e ↦ (x, get-put_ne c.tasks id k u e ∙ h)
  ]

  -- Any valid task with the same identity may be written, if it is justified where it must be.
  rewrite-Sound :
      task_validate u ≡ ok tt
      → (is_accepted u.state ≡ true → IsJustified c u)
      → Sound c
      → Sound (with_task c id u)
  rewrite-Sound valid just s = record {
    tasks_valid = λ j x h. elim (get-put_inv c.tasks id j u x h) [
      | inl e ↦ rw (← e.1, ← e.0) (same.id ∙ (s.tasks_valid id t found).0, valid)
      | inr e ↦ s.tasks_valid j x e.1
    ];
    attempts_valid = s.attempts_valid;
    attempts_owned = λ j x h. still_owned x.task_id (s.attempts_owned j x h);
    listed_exist = s.listed_exist;
    all_listed = s.all_listed;
    one_running = s.one_running;
    aliases_own = λ j x h. elim (get-put_inv c.tasks id j u x h) [
      | inl e ↦ rw (← e.1, ← e.0, same.alias) (s.aliases_own id t found)
      | inr e ↦ s.aliases_own j x e.1
    ];
    validations_about = λ v r h sc. IsAbout-Grows move-Grows (s.validations_about v r h sc);
    reviews_about = λ v r h sc. IsAbout-Grows move-Grows (s.reviews_about v r h sc);
    justified = λ k x h acc. elim (get-put_inv c.tasks id k u x h) [
      | inl e ↦ rw (← e.1) (IsJustified-Grows move-Grows (just (rw e.1 acc)))
      | inr e ↦ IsJustified-Grows move-Grows (s.justified k x e.1 acc)
    ];
  }

  pub move-Sound :
      can_transition t.state u.state ≡ true
      → u.state ≢ State.accepted
      → (t.state ≡ State.designing) ⊎ SamePlan t u
      → task_validate u ≡ ok tt
      → Sound c
      → Sound (with_task c id u)
  move-Sound edge ne plan valid s =
      rewrite-Sound valid (λ acc. justified plan (accepted_before t.state u.state edge ne acc)) s
    where
      justified :
          (t.state ≡ State.designing) ⊎ SamePlan t u
          → (is_accepted t.state ≡ true) × (t.state ≢ State.designing)
          → IsJustified c u
      justified (inl d) h = absurd (h.1 d)
      justified (inr p) h =
          IsJustified-SamePlan same.id p.work_package_id p.work_package_version p.accepted_commit
            (s.justified id t found h.0)

  pub accept-Sound : IsJustified c u → task_validate u ≡ ok tt → Sound c → Sound (with_task c id u)
  accept-Sound just valid s = rewrite-Sound valid (λ acc. just) s

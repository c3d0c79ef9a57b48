-- ===== src/State/Sound/Attempts.antt =====
-- Starting and finishing an attempt, and the invariant of the lineage.
use dev_cadence.Prelude.{
  ℤ, String, ◌≡◌, ◌≢◌, true, none, some, [], ◌∷◌, ◌++◌, contains, arith, ◌==◌, eq_iff, eq_refl, inl,
  inr, ◌⊎◌, ◌∙◌, contains-append, Bool-cases,
}
use dev_cadence.Dict.{get, get-put, get-put_inv, get-put_fresh, get-put_self, get-put_ne}
use dev_cadence.Errs.{ok}
use dev_cadence.Tasks.State.{State}
use dev_cadence.Tasks.Task.{Task, task_validate}
use dev_cadence.Tasks.Attempt.{Attempt, AttemptStatus, attempt_terminal, attempt_validate}
use dev_cadence.State.Projection.{listed}
use dev_cadence.State.Core.{Core, SameAttempt, with_attempt, with_new_attempt}
use dev_cadence.State.Sound.{Sound, Grows, IsAbout-Grows, IsJustified-Grows}

module _ {c : Core} (id : String) (a b : Attempt) (found : get c.attempts id ≡ some a)
    (was_running : a.status ≡ AttemptStatus.running) (same : SameAttempt a b) where
  pub finish-Grows : Grows c (with_attempt c id b)
  finish-Grows = record {
    candidates = λ j x h p. ground (arith, get-put c.attempts id j b, eq_iff id j);
    validations = λ j r h. h;
    reviews = λ j r h. h;
  }

  pub finish-Sound :
      attempt_terminal b.status ≡ true
      → attempt_validate b ≡ ok tt
      → Sound c
      → Sound (with_attempt c id b)
  unfolding attempt_terminal
  finish-Sound ended valid s = record {
    tasks_valid = s.tasks_valid;
    attempts_valid = λ j x h.
        ground
          (arith, get-put_inv c.attempts id j b x h, s.attempts_valid j x, s.attempts_valid id a);
    attempts_owned = λ j x h. elim (get-put_inv c.attempts id j b x h) [
      | inl e ↦ rw (← e.1) (rw same.task_id (s.attempts_owned id a found))
      | inr e ↦ s.attempts_owned j x e.1
    ];
    listed_exist = λ k j h.
        let (x, hx, own) = s.listed_exist k j h in
        elim (Bool-cases (id == j)) [
          | inl e ↦ (b, ground (arith, get-put c.attempts id j b), ground (arith, eq_iff id j))
          | inr e ↦ (x, ground (arith, get-put c.attempts id j b), own)
        ];
    all_listed = λ j x h. elim (get-put_inv c.attempts id j b x h) [
      | inl e ↦ rw (← e.1) (rw same.task_id (rw (← e.0) (s.all_listed id a found)))
      | inr e ↦ s.all_listed j x e.1
    ];
    one_running = λ i j x y hx hy own rx ry. ground (
      arith,
      get-put_inv c.attempts id i b x hx,
      get-put_inv c.attempts id j b y hy,
      s.one_running i j x y,
    );
    aliases_own = s.aliases_own;
    validations_about = λ v r h sc. IsAbout-Grows finish-Grows (s.validations_about v r h sc);
    reviews_about = λ v r h sc. IsAbout-Grows finish-Grows (s.reviews_about v r h sc);
    justified = λ k t h acc. IsJustified-Grows finish-Grows (s.justified k t h acc);
  }

module _ (c : Core) (t : Task) (a : Attempt) (q : ℤ) (found : get c.tasks a.task_id ≡ some t)
    (fresh : get c.attempts a.id ≡ none) where
  pub start-Grows : Grows c (with_new_attempt c t a q)
  start-Grows = record {
    candidates = λ j x h p. get-put_fresh c.attempts a.id j a x fresh h;
    validations = λ j r h. h;
    reviews = λ j r h. h;
  }

  started_listed :
      (k j : String)
      → contains (listed (get (with_new_attempt c t a q).attempts_by_task k)) j ≡ true
      → ((a.task_id ≡ k) × (a.id ≡ j)) ⊎ (contains (listed (get c.attempts_by_task k)) j ≡ true)
  started_listed k j h = ground (
    arith,
    get-put c.attempts_by_task a.task_id k (listed (get c.attempts_by_task a.task_id) ++ a.id ∷ []),
    contains-append (listed (get c.attempts_by_task a.task_id)) a.id j,
    eq_iff a.task_id k,
    eq_iff a.id j,
  )

  still_listed :
      (k j : String)
      → contains (listed (get c.attempts_by_task k)) j ≡ true
      → contains (listed (get (with_new_attempt c t a q).attempts_by_task k)) j ≡ true
  still_listed k j h = ground (
    arith,
    get-put c.attempts_by_task a.task_id k (listed (get c.attempts_by_task a.task_id) ++ a.id ∷ []),
    contains-append (listed (get c.attempts_by_task a.task_id)) a.id j,
    eq_iff a.task_id k,
    eq_iff a.id j,
  )

  now_listed :
      contains (listed (get (with_new_attempt c t a q).attempts_by_task a.task_id)) a.id ≡ true
  now_listed = ground (
    arith,
    get-put_self c.attempts_by_task a.task_id
        (listed (get c.attempts_by_task a.task_id) ++ a.id ∷ []),
    contains-append (listed (get c.attempts_by_task a.task_id)) a.id a.id,
    eq_refl a.id,
  )

  -- The task of an earlier attempt, in the new state.
  still_owned :
      (k : String)
      → (u : Task) × (get c.tasks k ≡ some u)
      → (u : Task) × (get (with_new_attempt c t a q).tasks k ≡ some u)
  still_owned k (u, h) = elim (Bool-cases (a.task_id == k)) [
    | inl e ↦ (
      record t { current_attempt_id = a.id; updated_seq = q },
      ground (
        arith,
        get-put c.tasks a.task_id k (record t { current_attempt_id = a.id; updated_seq = q }),
      ),
    )
    | inr e ↦ (u, get-put_ne c.tasks a.task_id k _ e ∙ h)
  ]

  pub start-Sound :
      t.state ≡ State.running
      → ((id : String) (b : Attempt)
          → get c.attempts id ≡ some b
          → b.task_id ≡ a.task_id
          → b.status ≢ AttemptStatus.running)
      → attempt_validate a ≡ ok tt
      → Sound c
      → Sound (with_new_attempt c t a q)
  unfolding task_validate
  start-Sound at_running none_running valid s = record {
    tasks_valid = λ j x h. elim (get-put_inv c.tasks a.task_id j _ x h) [
      | inl e ↦ rw (← e.1, ← e.0) (s.tasks_valid a.task_id t found)
      | inr e ↦ s.tasks_valid j x e.1
    ];
    attempts_valid = λ j x h. elim (get-put_inv c.attempts a.id j a x h) [
      | inl e ↦ rw (← e.1) (e.0, valid)
      | inr e ↦ s.attempts_valid j x e.1
    ];
    attempts_owned = λ j x h. elim (get-put_inv c.attempts a.id j a x h) [
      | inl e ↦ rw (← e.1) (still_owned a.task_id (t, found))
      | inr e ↦ still_owned x.task_id (s.attempts_owned j x e.1)
    ];
    listed_exist = λ k j h. elim (started_listed k j h) [
      | inl e ↦ (a, rw (← e.1) (get-put_self c.attempts a.id a), e.0)
      | inr e ↦
          let (x, hx, own) = s.listed_exist k j e in
          (x, get-put_fresh c.attempts a.id j a x fresh hx, own)
    ];
    all_listed = λ j x h. elim (get-put_inv c.attempts a.id j a x h) [
      | inl e ↦ rw (← e.1, ← e.0) now_listed
      | inr e ↦ still_listed x.task_id j (s.all_listed j x e.1)
    ];
    one_running = λ i j x y hx hy own rx ry. ground (
      arith,
      get-put_inv c.attempts a.id i a x hx,
      get-put_inv c.attempts a.id j a y hy,
      s.one_running i j x y,
      none_running i x,
      none_running j y,
    );
    aliases_own = λ j x h. elim (get-put_inv c.tasks a.task_id j _ x h) [
      | inl e ↦ rw (← e.1, ← e.0) (s.aliases_own a.task_id t found)
      | inr e ↦ s.aliases_own j x e.1
    ];
    validations_about = λ v r h sc. IsAbout-Grows start-Grows (s.validations_about v r h sc);
    reviews_about = λ v r h sc. IsAbout-Grows start-Grows (s.reviews_about v r h sc);
    justified = λ k u h acc. elim (get-put_inv c.tasks a.task_id k _ u h) [
      | inl e ↦ absurd (ground (arith, e.1))
      | inr e ↦ IsJustified-Grows start-Grows (s.justified k u e.1 acc)
    ];
  }

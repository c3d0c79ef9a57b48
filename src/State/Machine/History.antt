-- ===== src/State/Machine/History.antt =====
-- What becomes of tasks and attempts in one event of the abstract machine.
use dev_cadence.Prelude.{
  String, ◌≡◌, ◌⊎◌, ◌∙◌, ap, refl, sym, subst, true, some, inl, inr, Bool-cases, ◌==◌, eq_iff,
  arith,
}
use dev_cadence.Dict.{Dict, get, get-put, get-put_fresh, get-put_ne}
use dev_cadence.Tasks.State.{can_transition}
use dev_cadence.Tasks.Task.{Task}
use dev_cadence.Tasks.Attempt.{Attempt, AttemptStatus}
use dev_cadence.State.Core.{
  Core, SameTask, SameAttempt, with_task, Records, nothing, start, finish, validate, review, Shifts,
  stay, create, move, accept, Move,
}

SameTask-refl : (t : Task) → SameTask t t
SameTask-refl t = record {
  id = refl;
  project_id = refl;
  alias = refl;
  title = refl;
  milestone_id = refl;
  created_seq = refl;
}

SameAttempt-refl : (a : Attempt) → SameAttempt a a
SameAttempt-refl a = record {
  id = refl;
  task_id = refl;
  ordinal = refl;
  work_package_id = refl;
  work_package_version = refl;
  base_commit = refl;
  started_at = refl;
  created_seq = refl;
}

-- The same task, in the same state or one edge on.
pub record IsLater (t u : Task) : Type 0 where
  pub same : SameTask t u
  pub edge : (u.state ≡ t.state) ⊎ (can_transition t.state u.state ≡ true)

-- The same attempt: untouched, or running before.
pub record IsHistory (a b : Attempt) : Type 0 where
  pub same : SameAttempt a b
  pub settled : (b ≡ a) ⊎ (a.status ≡ AttemptStatus.running)

abbrev pub HasLater : Core → String → Task → Type 0
HasLater d id t = (u : Task) × (get d.tasks id ≡ some u) × IsLater t u

abbrev pub HasHistory : Dict Attempt → String → Attempt → Type 0
HasHistory m id a = (b : Attempt) × (get m id ≡ some b) × IsHistory a b

abbrev HasPeer : Core → String → Task → Type 0
HasPeer d id t = (u : Task) × (get d.tasks id ≡ some u) × SameTask t u × (u.state ≡ t.state)

Records-task :
    {c d : Core} (r : Records c d) (id : String) (t : Task)
    → get c.tasks id ≡ some t
    → HasPeer d id t
Records-task (nothing e) id t h = subst (λ x. HasPeer x id t) (sym e) (t, h, SameTask-refl t, refl)
Records-task {c} (start u a q found r1 r2 r3 r4 r5 e) id t h =
    subst (λ x. HasPeer x id t) (sym e)
      (elim (Bool-cases (a.task_id == id)) [
        | inl k ↦ (
          record t { current_attempt_id = a.id; updated_seq = q },
          ground (
            arith,
            eq_iff a.task_id id,
            get-put c.tasks a.task_id id (record u { current_attempt_id = a.id; updated_seq = q }),
          ),
          ground arith,
          refl,
        )
        | inr k ↦ (t, get-put_ne c.tasks a.task_id id _ k ∙ h, SameTask-refl t, refl)
      ])
Records-task (finish i a b r1 r2 r3 r4 r5 e) id t h =
    subst (λ x. HasPeer x id t) (sym e) (t, h, SameTask-refl t, refl)
Records-task (validate i ref r1 r2 e) id t h =
    subst (λ x. HasPeer x id t) (sym e) (t, h, SameTask-refl t, refl)
Records-task (review i ref r1 r2 e) id t h =
    subst (λ x. HasPeer x id t) (sym e) (t, h, SameTask-refl t, refl)

rewritten :
    (c : Core) (i id : String) (t u v : Task)
    → get c.tasks i ≡ some t
    → IsLater t u
    → get c.tasks id ≡ some v
    → HasLater (with_task c i u) id v
rewritten c i id t u v found later h = elim (Bool-cases (i == id)) [
  | inl k ↦ (
    u,
    ground (arith, get-put c.tasks i id u),
    subst (λ x. IsLater x u) (ground (arith, eq_iff i id)) later,
  )
  | inr k ↦ (v, get-put_ne c.tasks i id u k ∙ h, record { same = SameTask-refl v; edge = inl refl })
]

Shifts-task :
    {c d : Core} (r : Shifts c d) (id : String) (t : Task)
    → get c.tasks id ≡ some t
    → HasLater d id t
Shifts-task (stay e) id t h =
    subst (λ x. HasLater x id t) (sym e) (t, h, record { same = SameTask-refl t; edge = inl refl })
Shifts-task {c} (create u fresh r1 r2 r3 e) id t h =
    subst (λ x. HasLater x id t) (sym e)
      (
        t,
        get-put_fresh c.tasks u.id id u t fresh h,
        record { same = SameTask-refl t; edge = inl refl },
      )
Shifts-task {c} (move i v u found edge r1 r2 r3 same e) id t h =
    subst (λ x. HasLater x id t) (sym e)
      (rewritten c i id v u t found (record { same = same; edge = inr edge }) h)
Shifts-task {c} (accept i v u found at_reviewing to r1 r2 same e) id t h =
    subst (λ x. HasLater x id t) (sym e)
      (rewritten c i id v u t found
        (record { same = same; edge = inr (rw (at_reviewing, to) (unfold can_transition in refl)) })
        h)

-- Every task is still there, with the same identity, in the same state or one edge further.
pub Move-task :
    {c d : Core} (m : Move c d) (id : String) (t : Task) → get c.tasks id ≡ some t → HasLater d id t
Move-task m id t h =
    let (u, hu, same, state) = Records-task m.recorded id t h in
    let (v, hv, later) = Shifts-task m.shifted id u hu in (v, hv, joined t u v same state later)
  where
    joined : (t u v : Task) → SameTask t u → u.state ≡ t.state → IsLater u v → IsLater t v
    joined t u v same state later = ground (arith, later.edge)

ap_attempts : {c d : Core} → c ≡ d → c.attempts ≡ d.attempts
ap_attempts e = ap (λ (x : Core). x.attempts) e

Shifts-attempts : {c d : Core} → Shifts c d → d.attempts ≡ c.attempts
Shifts-attempts (stay e) = ap_attempts e
Shifts-attempts (create u r0 r1 r2 r3 e) = ap_attempts e
Shifts-attempts (move i v u r0 r1 r2 r3 r4 r5 e) = ap_attempts e
Shifts-attempts (accept i v u r0 r1 r2 r3 r4 r5 e) = ap_attempts e

kept : (m : Dict Attempt) (id : String) (a : Attempt) → get m id ≡ some a → HasHistory m id a
kept m id a h = (a, h, record { same = SameAttempt-refl a; settled = inl refl })

Records-attempt :
    {c d : Core} (r : Records c d) (id : String) (a : Attempt)
    → get c.attempts id ≡ some a
    → HasHistory d.attempts id a
Records-attempt (nothing e) id a h =
    subst (λ (x : Core). HasHistory x.attempts id a) (sym e) (kept _ id a h)
Records-attempt {c} (start t b q r0 r1 fresh r2 r3 r4 e) id a h =
    subst (λ (x : Core). HasHistory x.attempts id a) (sym e)
      (kept _ id a (get-put_fresh c.attempts b.id id b a fresh h))
Records-attempt {c} (finish i x b found running r1 r2 same e) id a h =
    subst (λ (x : Core). HasHistory x.attempts id a) (sym e)
      (elim (Bool-cases (i == id)) [
        | inl k ↦ (
          b,
          ground (arith, get-put c.attempts i id b),
          record {
            same = subst (λ y. SameAttempt y b) (same_attempt k) same;
            settled = inr (rw (← same_attempt k) running);
          },
        )
        | inr k ↦ kept _ id a (get-put_ne c.attempts i id b k ∙ h)
      ])
  where
    same_attempt : (i == id) ≡ true → x ≡ a
    same_attempt k = ground (arith, eq_iff i id)
Records-attempt (validate i ref r1 r2 e) id a h =
    subst (λ (x : Core). HasHistory x.attempts id a) (sym e) (kept _ id a h)
Records-attempt (review i ref r1 r2 e) id a h =
    subst (λ (x : Core). HasHistory x.attempts id a) (sym e) (kept _ id a h)

-- Every attempt is still there with the same lineage, and a finished one is untouched.
pub Move-attempt :
    {c d : Core} (m : Move c d) (id : String) (a : Attempt)
    → get c.attempts id ≡ some a
    → HasHistory d.attempts id a
Move-attempt m id a h =
    let (b, hb, history) = Records-attempt m.recorded id a h in
    (b, rw (Shifts-attempts m.shifted) hb, history)

-- ===== src/State/Machine/Origin.antt =====
-- Where the tasks of a state of the abstract machine come from.
use dev_cadence.Prelude.{String, ◌≡◌, ◌⊎◌, refl, subst, true, some, inl, inr}
use dev_cadence.Dict.{get, get-put_inv}
use dev_cadence.Tasks.State.{State, can_transition}
use dev_cadence.Tasks.Task.{Task}
use dev_cadence.State.Core.{
  Core, with_task, Records, nothing, start, finish, validate, review, Shifts, stay, create, move,
  accept, Move,
}

-- The task was there, in the same state or one edge before; or it is new, and PROPOSED.
abbrev pub HasOrigin : Core → String → Task → Type 0
HasOrigin c id u =
    ((t : Task) × (get c.tasks id ≡ some t)
      × ((u.state ≡ t.state) ⊎ (can_transition t.state u.state ≡ true)))
    ⊎ (u.state ≡ State.proposed)

abbrev WasThere : Core → String → Task → Type 0
WasThere c id u = (t : Task) × (get c.tasks id ≡ some t) × (u.state ≡ t.state)

Records-origin :
    {c d : Core}
    → Records c d
    → (id : String) (u : Task) → get d.tasks id ≡ some u
    → WasThere c id u
Records-origin (nothing e) id u h = subst (λ x. WasThere x id u) e (u, h, refl)
Records-origin {c} (start t a q found r0 r1 r2 r3 r4 e) id u h =
    elim (get-put_inv c.tasks a.task_id id _ u
      (subst (λ (x : Core). get x.tasks id ≡ some u) e h)) [
        | inl k ↦ (t, subst (λ i. get c.tasks i ≡ some t) k.0 found, rw (← k.1) refl)
        | inr k ↦ (u, k.1, refl)
      ]
Records-origin (finish i a b r0 r1 r2 r3 r4 e) id u h =
    (u, subst (λ (x : Core). get x.tasks id ≡ some u) e h, refl)
Records-origin (validate i ref r0 r1 e) id u h =
    (u, subst (λ (x : Core). get x.tasks id ≡ some u) e h, refl)
Records-origin (review i ref r0 r1 e) id u h =
    (u, subst (λ (x : Core). get x.tasks id ≡ some u) e h, refl)

rewritten-origin :
    (c : Core) (i id : String) (t v u : Task)
    → get c.tasks i ≡ some t
    → can_transition t.state v.state ≡ true
    → get (with_task c i v).tasks id ≡ some u
    → HasOrigin c id u
rewritten-origin c i id t v u found edge h = elim (get-put_inv c.tasks i id v u h) [
  | inl k ↦ inl (
    t,
    subst (λ i. get c.tasks i ≡ some t) k.0 found,
    inr (subst (λ (x : Task). can_transition t.state x.state ≡ true) k.1 edge),
  )
  | inr k ↦ inl (u, k.1, inl refl)
]

Shifts-origin :
    {c d : Core}
    → Shifts c d
    → (id : String) (u : Task) → get d.tasks id ≡ some u
    → HasOrigin c id u
Shifts-origin (stay e) id u h = inl (u, subst (λ (x : Core). get x.tasks id ≡ some u) e h, inl refl)
Shifts-origin {c} (create t fresh free at_proposed valid e) id u h =
    elim (get-put_inv c.tasks t.id id t u (subst (λ (x : Core). get x.tasks id ≡ some u) e h)) [
      | inl k ↦ inr (rw (← k.1) at_proposed)
      | inr k ↦ inl (u, k.1, inl refl)
    ]
Shifts-origin {c} (move i t v found edge r0 r1 r2 r3 e) id u h =
    rewritten-origin c i id t v u found edge (subst (λ (x : Core). get x.tasks id ≡ some u) e h)
Shifts-origin {c} (accept i t v found reviewing accepted r0 r1 r2 e) id u h =
    rewritten-origin c i id t v u found (rw (reviewing, accepted) (unfold can_transition in refl))
      (subst (λ (x : Core). get x.tasks id ≡ some u) e h)

pub Move-origin :
    {c d : Core} → Move c d → (id : String) (u : Task) → get d.tasks id ≡ some u → HasOrigin c id u
Move-origin m id u h = elim (Shifts-origin m.shifted id u h) [
  | inl (t, there, edge) ↦
      let (s, before, same) = Records-origin m.recorded id t there in
      inl (s, before, subst (λ x. (u.state ≡ x) ⊎ (can_transition x u.state ≡ true)) same edge)
  | inr new ↦ inr new
]

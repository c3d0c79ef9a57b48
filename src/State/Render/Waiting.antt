-- ===== src/State/Render/Waiting.antt =====
-- The loop of `ProjectState()` of internal/state/projection.go: what it counts, and who waits for the
-- principal.
use dev_cadence.Prelude.{
  ◌+◌, ◌≤◌, String, ◌≡◌, ◌∙◌, refl, ap, Bool-cases, Option-cases, eq_refl, ◌⊎◌, ◌↔◌, inl, inr, ◌==◌,
  true, ◌&&◌, ◌||◌, Option, none, some, List, [], ◌∷◌, contains, contains-append, is_some, arith,
  eq_iff, length,
}
use dev_cadence.Dict.{Dict, get}
use dev_cadence.Errs.{ok, err, internal}
use dev_cadence.Protocol.Delivery.{DecisionAuthority}
use dev_cadence.Tasks.State.{State, Bucket, buckets}
use dev_cadence.Tasks.State.Bucketing.{in_bucket, awaiting_principal_iff}
use dev_cadence.Tasks.Task.{Task, blocked_authority}
use dev_cadence.State.Render.{TaskBuckets, Tally, show, show_in, tally_task, tally_tasks}

-- A listed task with this alias that waits for the principal.
pub record Waits (tasks : Dict Task) (ids : List String) (alias : String) : Type 0 where
  pub id : String
  pub task : Task
  pub listed : contains ids id ≡ true
  pub there : get tasks id ≡ some task
  pub named : task.alias ≡ alias
  pub waiting :
      (task.state ≡ State.designing)
      ⊎ ((task.state ≡ State.blocked)
          × (blocked_authority task.blocked_reason ≡ DecisionAuthority.principal))

shown_awaiting :
    (alias : String) (b : TaskBuckets) (xs : List Bucket) (a : String)
    → contains (show_in alias b xs).awaiting_principal a ≡ (
        contains b.awaiting_principal a || (in_bucket xs Bucket.awaiting_principal && (alias == a)))
unfolding show_in show
shown_awaiting alias b [] a = ground arith
shown_awaiting alias b (x ∷ xs) a = ground (
  arith,
  shown_awaiting alias (show alias b x) xs a,
  contains-append b.awaiting_principal alias a,
)

-- The loop, when every listed id is a key.
pub record Tallied (tasks : Dict Task) (m : String) (ids : List String) (c : Tally) : Type 0 where
  pub result : Tally
  pub returned : tally_tasks tasks m ids c ≡ ok result
  pub completed : result.completed + c.total ≤ result.total + c.completed
  pub total : result.total ≤ c.total + length ids
  pub awaiting :
      (a : String)
      → (contains result.shown.awaiting_principal a ≡ true)
        ↔ ((contains c.shown.awaiting_principal a ≡ true) ⊎ Waits tasks ids a)

tally_tasks-there :
    (tasks : Dict Task) (m id : String) (ids : List String) (c : Tally) (t : Task)
    → get tasks id ≡ some t
    → tally_tasks tasks m (id ∷ ids) c ≡ tally_tasks tasks m ids (tally_task m t c)
unfolding tally_tasks
tally_tasks-there tasks m id ids c t h = found (get tasks id) h
  where
    some_injective : {u : Task} → some u ≡ some t → u ≡ t
    some_injective k = cc

    found :
        (o : Option Task)
        → o ≡ some t
        → elim o [ none ↦ err internal | some u ↦ tally_tasks tasks m ids (tally_task m u c) ]
          ≡ tally_tasks tasks m ids (tally_task m t c)
    found none k = cc
    found (some u) k = ap (λ u. tally_tasks tasks m ids (tally_task m u c)) (some_injective k)

-- What one task adds to those that await the principal.
one_waiting :
    (m : String) (t : Task) (c : Tally) (a : String)
    → (contains (tally_task m t c).shown.awaiting_principal a ≡ true) ↔ (
        (contains c.shown.awaiting_principal a ≡ true)
        ⊎ ((t.alias ≡ a)
            × ((t.state ≡ State.designing)
                ⊎ ((t.state ≡ State.blocked)
                    × (blocked_authority t.blocked_reason ≡ DecisionAuthority.principal)))))
unfolding tally_task
one_waiting m t c a = ground (
  arith,
  shown_awaiting t.alias c.shown (buckets t.state (blocked_authority t.blocked_reason)) a,
  awaiting_principal_iff t.state (blocked_authority t.blocked_reason),
  eq_iff t.alias a,
)

tally_step :
    (tasks : Dict Task) (m id : String) (ids : List String) (c : Tally) (t : Task)
    → get tasks id ≡ some t
    → Tallied tasks m ids (tally_task m t c)
    → Tallied tasks m (id ∷ ids) c
unfolding tally_task
tally_step tasks m id ids c t there r = record {
  result = r.result;
  returned = tally_tasks-there tasks m id ids c t there ∙ r.returned;
  completed = ground (arith, r.completed);
  total = ground (arith, r.total);
  awaiting = λ a. (λ h. to a ((r.awaiting a).0 h), λ h. (r.awaiting a).1 (from a h));
}
  where
    later : {a : String} → Waits tasks ids a → Waits tasks (id ∷ ids) a
    later w = record {
      id = w.id;
      task = w.task;
      listed = ground (arith, w.listed);
      there = w.there;
      named = w.named;
      waiting = w.waiting;
    }

    to :
        (a : String)
        → (contains (tally_task m t c).shown.awaiting_principal a ≡ true) ⊎ Waits tasks ids a
        → (contains c.shown.awaiting_principal a ≡ true) ⊎ Waits tasks (id ∷ ids) a
    to a (inr w) = inr (later w)
    to a (inl k) = elim ((one_waiting m t c a).0 k) [
      | inl x ↦ inl x
      | inr w ↦ inr (record {
        id = id;
        task = t;
        listed = ground (arith, eq_refl id);
        there = there;
        named = w.0;
        waiting = w.1;
      })
    ]

    same : (k : String) {u : Task} → (id == k) ≡ true → get tasks k ≡ some u → u ≡ t
    same k {u} e h = ground (arith, eq_iff id k)

    from :
        (a : String)
        → (contains c.shown.awaiting_principal a ≡ true) ⊎ Waits tasks (id ∷ ids) a
        → (contains (tally_task m t c).shown.awaiting_principal a ≡ true) ⊎ Waits tasks ids a
    from a (inl x) = inl ((one_waiting m t c a).1 (inl x))
    from a (inr w) = elim (Bool-cases (id == w.id)) [
      | inl e ↦
          inl (
            (one_waiting m t c a).1 (inr (ground (arith, same w.id e w.there, w.named, w.waiting))))
      | inr e ↦ inr (record {
        id = w.id;
        task = w.task;
        listed = ground (arith, w.listed);
        there = w.there;
        named = w.named;
        waiting = w.waiting;
      })
    ]

pub all-Tallied :
    (tasks : Dict Task) (m : String) (ids : List String) (c : Tally)
    → ((id : String) → contains ids id ≡ true → is_some (get tasks id) ≡ true)
    → Tallied tasks m ids c
unfolding tally_tasks
all-Tallied tasks m [] c all = record {
  result = c;
  returned = refl;
  completed = omega arith;
  total = omega arith;
  awaiting = λ a. (λ h. inl h, λ h. nothing h);
}
  where
    nothing :
        {a : String}
        → (contains c.shown.awaiting_principal a ≡ true) ⊎ Waits tasks [] a
        → contains c.shown.awaiting_principal a ≡ true
    nothing (inl h) = h
    nothing (inr w) = absurd (ground (arith, w.listed))
all-Tallied tasks m (id ∷ ids) c all = elim (Option-cases (get tasks id)) [
  | inl none_there ↦ absurd (ground (arith, all id, eq_refl id))
  | inr (t, there) ↦
      tally_step tasks m id ids c t there
        (all-Tallied tasks m ids (tally_task m t c) (λ k h. all k (ground arith)))
]

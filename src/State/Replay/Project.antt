-- ===== src/State/Replay/Project.antt =====
-- The project and its accepted commit through a journal that `Reduce` of internal/state accepts.
use dev_cadence.Prelude.{
  String, ◌≡◌, ◌⊎◌, ◌∙◌, refl, sym, ap, subst, inl, inr, true, false, ◌==◌, some, List, [], ◌∷◌,
  All, arith, eq_iff,
}
use dev_cadence.Errs.{ok}
use dev_cadence.Protocol.Delivery.{ValidationScope}
use dev_cadence.Events.Project.{ProjectInitialized}
use dev_cadence.Events.Evidence.{ValidationCompleted, is_pass}
use dev_cadence.Events.Payloads.{project_initialized, validation_completed, payload_type}
use dev_cadence.Events.Envelope.{Event}
use dev_cadence.State.Projection.{Projection, new_projection}
use dev_cadence.State.Apply.{reduce, is_initialisation}
use dev_cadence.State.Frame.Effects.{
  Effect, framed, initialised, integrated, is_project_initialized, payload_type-initialized,
}
use dev_cadence.State.Refine.Apply.{Applied}
use dev_cadence.State.Replay.{Journal, stop, step, reduce-Journal}

-- An event initialises the project exactly when its payload does.
initialisation-payload :
    {p s : Projection} {e : Event}
    → (a : Applied p e s) → is_initialisation e ≡ is_project_initialized a.payload
initialisation-payload {e} a =
    subst (λ t. (t == "ProjectInitialized") ≡ is_project_initialized a.payload)
      ((eq_iff (payload_type a.payload) e.event_type).0 a.of_type)
      (payload_type-initialized a.payload)

-- After any event that is accepted the project is initialised, and it is the event's.
Applied-project :
    {p s : Projection} {e : Event}
    → Applied p e s
    → (s.initialised ≡ true) × (s.project_id ≡ e.project_id)
Applied-project {p} {s} {e} a = by_effect a.effect
  where
    by_effect : Effect p e a.payload s → (s.initialised ≡ true) × (s.project_id ≡ e.project_id)
    by_effect (framed other f) =
        let running : p.initialised ≡ true =
          ground (arith, a.initialises_once, initialisation-payload a, other) in
        (f.initialised ∙ running, f.project_id ∙ sym (a.same_project running))
    by_effect (initialised i _ id on _) = (on, id)
    by_effect (integrated v t q _ _ _ _ id on _) =
        let other : is_project_initialized a.payload ≡ false = rw q refl in
        let running : p.initialised ≡ true =
          ground (arith, a.initialises_once, initialisation-payload a, other) in
        (on ∙ running, id ∙ sym (a.same_project running))

abbrev pub OfProject : String → Event → Type 0
OfProject id e = (e.project_id ≡ id) × (is_initialisation e ≡ false)

Journal-project :
    {p q : Projection} {es : List Event} (id : String)
    → p.initialised ≡ true
    → p.project_id ≡ id
    → Journal p es q
    → All (OfProject id) es × (q.project_id ≡ id) × (q.initialised ≡ true)
Journal-project id on same stop = (tt, same, on)
Journal-project {es = x ∷ xs} id on same (step a j) =
    let (still_on, now) = Applied-project a in
    let kept : x.project_id ≡ id = a.same_project on ∙ same in
    let (all, same_project, still) = Journal-project id still_on (now ∙ kept) j in
    (((kept, ground (arith, a.initialises_once, on)), all), same_project, still)

-- The first event of a journal that `Reduce` accepts initialises the project and no later one does;
-- all events are of the first one's project, and so is the projection, which is initialised.
pub reduce-one_project :
    (e : Event) (es : List Event) (q : Projection)
    → reduce (e ∷ es) ≡ ok q
    → (is_initialisation e ≡ true)
      × All (OfProject e.project_id) es
      × (q.project_id ≡ e.project_id)
      × (q.initialised ≡ true)
reduce-one_project e es q h = by_journal (reduce-Journal (e ∷ es) h)
  where
    by_journal :
        Journal new_projection (e ∷ es) q
        → (is_initialisation e ≡ true)
          × All (OfProject e.project_id) es
          × (q.project_id ≡ e.project_id)
          × (q.initialised ≡ true)
    by_journal (step a j) =
        let (on, id) = Applied-project a in
        let (all, same_project, still) = Journal-project e.project_id on id j in
        (a.initialises_once, all, same_project, still)

-- The event may set the accepted commit to this one.
pub data Sets (c : String) (e : Event) : Type 0 where
  at_start :
      (i : ProjectInitialized)
      → e.payload ≡ some (project_initialized i)
      → i.accepted_commit ≡ c
      → Sets c e
  by_integration :
      (v : ValidationCompleted)
      → e.payload ≡ some (validation_completed v)
      → v.scope ≡ ValidationScope.integration
      → is_pass v.status ≡ true
      → v.commit ≡ c
      → Sets c e

abbrev pub Some : (Event → Type 0) → List Event → Type 0
Some P [] = ⊥
Some P (e ∷ es) = P e ⊎ Some P es

Journal-commit :
    {p q : Projection} {es : List Event}
    → Journal p es q
    → (q.accepted_commit ≡ p.accepted_commit) ⊎ Some (Sets q.accepted_commit) es
Journal-commit stop = inl refl
Journal-commit {p} {q} {es = x ∷ xs} (step {q = mid} a j) = elim (Journal-commit j) [
  | inl same ↦ by_effect same a.effect
  | inr later ↦ inr (inr later)
]
  where
    by_effect :
        q.accepted_commit ≡ mid.accepted_commit
        → Effect p x a.payload mid
        → (q.accepted_commit ≡ p.accepted_commit) ⊎ Some (Sets q.accepted_commit) (x ∷ xs)
    by_effect same (framed _ f) = inl (same ∙ f.accepted_commit)
    by_effect same (initialised i k _ _ c) =
        inr (inl (at_start i (a.carried ∙ ap some k) (sym (same ∙ c))))
    by_effect same (integrated v t k scope pass _ _ _ _ c) =
        inr (inl (by_integration v (a.carried ∙ ap some k) scope pass (sym (same ∙ c))))

-- The accepted commit of a projection that `Reduce` returns from a journal with an event is the one
-- that an initialisation in the journal named, or the commit of a validation of scope `integration`
-- in it that passed.
pub reduce-accepted_commit :
    (e : Event) (es : List Event) (q : Projection)
    → reduce (e ∷ es) ≡ ok q
    → Some (Sets q.accepted_commit) (e ∷ es)
reduce-accepted_commit e es q h = by_journal (reduce-Journal (e ∷ es) h)
  where
    by_first :
        {mid : Projection} (a : Applied new_projection e mid)
        → Effect new_projection e a.payload mid
        → q.accepted_commit ≡ mid.accepted_commit
        → Some (Sets q.accepted_commit) (e ∷ es)
    by_first a (framed other f) same =
        absurd (ground (arith, a.initialises_once, initialisation-payload a, other))
    by_first a (initialised i k _ _ c) same =
        inl (at_start i (a.carried ∙ ap some k) (sym (same ∙ c)))
    by_first a (integrated v t k scope pass _ _ _ _ c) same =
        inl (by_integration v (a.carried ∙ ap some k) scope pass (sym (same ∙ c)))

    by_journal : Journal new_projection (e ∷ es) q → Some (Sets q.accepted_commit) (e ∷ es)
    by_journal (step a j) = elim (Journal-commit j) [
      | inl same ↦ by_first a a.effect same
      | inr later ↦ inr later
    ]

-- ===== src/State/Replay.antt =====
-- `Apply` and `Reduce` of internal/state, for every event and every journal.
pub mod Order
pub mod Prefix
pub mod Lives
pub mod Project
use dev_cadence.Prelude.{String, ◌≡◌, refl, sym, ap, subst, ◌∙◌, none, some, List, [], ◌∷◌}
use dev_cadence.Dict.{get}
use dev_cadence.Errs.{Category, Result, ok, err, ok_injective}
use dev_cadence.Events.Envelope.{Event}
use dev_cadence.State.Projection.{Projection, new_projection}
use dev_cadence.State.Apply.{apply, reduce_from, reduce}
use dev_cadence.State.Core.{core, Move}
use dev_cadence.State.Sound.{Sound}
use dev_cadence.State.Machine.{Move-Sound}
use dev_cadence.State.Refine.Apply.{Applied, apply-Ends}

-- From a projection whose lineage is sound, `Apply` is all or nothing. With any error the
-- projection that it leaves is the one that it was given. With success the event is valid, its
-- sequence number is above the watermark, it is of this project if one is initialised, and it is an
-- initialisation exactly if none was; the watermark and the last moment become the event's, the
-- lineage makes one move of the abstract machine, and the project's identity and accepted commit
-- have the effect of the event's payload.
pub apply_refines :
    (p : Projection) (e : Event)
    → Sound (core p)
    → ((c : Category) → (apply e p).0 ≡ err c → (apply e p).1 ≡ p)
      × ((apply e p).0 ≡ ok tt → Applied p e (apply e p).1)
apply_refines p e s = ((apply-Ends p e s).on_err, λ h. (apply-Ends p e s).on_ok tt h)

-- A journal that `Reduce` has accepted, event by event.
pub data Journal : Projection → List Event → Projection → Type 0 where
  stop : {p : Projection} → Journal p [] p
  step :
      {p q s : Projection} {e : Event} {es : List Event}
      → Applied p e q
      → Journal q es s
      → Journal p (e ∷ es) s

new_projection-Sound : Sound (core new_projection)
unfolding get
new_projection-Sound = record {
  tasks_valid = λ id t h. cc;
  attempts_valid = λ id a h. cc;
  attempts_owned = λ id a h. cc;
  listed_exist = λ k id h. cc;
  all_listed = λ id a h. cc;
  one_running = λ i j a b h. cc;
  aliases_own = λ id t h. cc;
  validations_about = λ id r h. cc;
  reviews_about = λ id r h. cc;
  justified = λ id t h. cc;
}

-- The rest of the loop, once an event has been applied.
abbrev pub go_on : Result (Unit {0}) × Projection → List Event → Result Projection
go_on (ok _, p) es = reduce_from p es
go_on (err c, p) es = err c

pub reduce_from-step :
    (p : Projection) (e : Event) (es : List Event) → reduce_from p (e ∷ es) ≡ go_on (apply e p) es
unfolding reduce_from
reduce_from-step p e es = by_result (apply e p)
  where
    by_result :
        (r : Result (Unit {0}) × Projection)
        → elim r.0 [ ok _ ↦ reduce_from r.1 es | err c ↦ err c ] ≡ go_on r es
    by_result (ok _, q) = refl
    by_result (err c, q) = refl

pub go_on-ok :
    (r : Result (Unit {0}) × Projection) (es : List Event) {q : Projection}
    → go_on r es ≡ ok q
    → (r.0 ≡ ok tt) × (reduce_from r.1 es ≡ ok q)
go_on-ok (ok tt, p) es h = (refl, h)
go_on-ok (err c, p) es h = cc

Applied-Sound : {p q : Projection} {e : Event} → Applied p e q → Sound (core p) → Sound (core q)
Applied-Sound a s = Move-Sound a.lineage s

pub reduce_from-Journal :
    (p : Projection) (es : List Event) {q : Projection}
    → Sound (core p)
    → reduce_from p es ≡ ok q
    → Journal p es q
unfolding reduce_from
reduce_from-Journal p [] {q} s h = subst (Journal p []) (ok_injective h) stop
reduce_from-Journal p (e ∷ es) s h =
    let (done, rest) = go_on-ok (apply e p) es (sym (reduce_from-step p e es) ∙ h) in
    let applied = (apply_refines p e s).1 done in
    step applied (reduce_from-Journal (apply e p).1 es (Applied-Sound applied s) rest)

pub Journal-Sound :
    {p q : Projection} {es : List Event} → Journal p es q → Sound (core p) → Sound (core q)
Journal-Sound stop s = s
Journal-Sound (step a j) s = Journal-Sound j (Applied-Sound a s)

pub reduce-Journal :
    (es : List Event) {q : Projection} → reduce es ≡ ok q → Journal new_projection es q
unfolding reduce
reduce-Journal es h = reduce_from-Journal new_projection es new_projection-Sound h

-- Every projection that `Reduce` returns is sound: tasks and attempts are valid and stored under
-- their own ids, every attempt has a task and is listed for it, no task has two running attempts, a
-- task's alias leads to it, every item of attempt evidence is about a commit that its attempt
-- produced, and every task in ACCEPTED or beyond has a candidate of its approved work package
-- version with that commit, validated and reviewed (DCI-032).
pub reduce-Sound : (es : List Event) (q : Projection) → reduce es ≡ ok q → Sound (core q)
reduce-Sound es q h = Journal-Sound (reduce-Journal es h) new_projection-Sound

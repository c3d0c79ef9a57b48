-- ===== src/State/Replay/Prefix.antt =====
-- Where `Reduce` of internal/state stops.
use dev_cadence.Prelude.{◌≡◌, refl, sym, ap, ◌∙◌, ◌↔◌, List, [], ◌∷◌, ◌++◌}
use dev_cadence.Errs.{Category, Result, ok, err, ◌>>=◌}
use dev_cadence.Events.Envelope.{Event}
use dev_cadence.State.Projection.{Projection}
use dev_cadence.State.Apply.{apply, reduce_from}
use dev_cadence.State.Replay.{go_on, reduce_from-step}

go_on-append :
    (r : Result (Unit {0}) × Projection) (xs ys : List Event)
    → ((p : Projection) → reduce_from p (xs ++ ys) ≡ (reduce_from p xs >>= λ q. reduce_from q ys))
    → go_on r (xs ++ ys) ≡ (go_on r xs >>= λ q. reduce_from q ys)
go_on-append (ok u, p) xs ys h = h p
go_on-append (err c, p) xs ys h = refl

reduce_from-append :
    (p : Projection) (xs ys : List Event)
    → reduce_from p (xs ++ ys) ≡ (reduce_from p xs >>= λ q. reduce_from q ys)
unfolding reduce_from
reduce_from-append p [] ys = refl
reduce_from-append p (e ∷ xs) ys =
    reduce_from-step p e (xs ++ ys)
    ∙ go_on-append (apply e p) xs ys (λ q. reduce_from-append q xs ys)
    ∙ ap (λ r. r >>= λ q. reduce_from q ys) (sym (reduce_from-step p e xs))

-- Where a reduction stops: the events before it were accepted, and it is refused.
pub record StopsAt (p : Projection) (es : List Event) (c : Category) : Type 0 where
  pub before : List Event
  pub event : Event
  pub after : List Event
  pub reached : Projection
  pub split : es ≡ before ++ event ∷ after
  pub accepted : reduce_from p before ≡ ok reached
  pub refused : (apply event reached).0 ≡ err c

go_on-StopsAt :
    (r : Result (Unit {0}) × Projection) (p : Projection) (e : Event) (es : List Event)
    (c : Category)
    → apply e p ≡ r
    → ((q : Projection) → reduce_from q es ≡ err c → StopsAt q es c)
    → go_on r es ≡ err c
    → StopsAt p (e ∷ es) c
unfolding reduce_from
go_on-StopsAt (ok _, q) p e es c done later h =
    let s = later q h in
    record {
      before = e ∷ s.before;
      event = s.event;
      after = s.after;
      reached = s.reached;
      split = ap (λ xs. e ∷ xs) s.split;
      accepted = reduce_from-step p e s.before ∙ rw done s.accepted;
      refused = s.refused;
    }
go_on-StopsAt (err d, q) p e es c done later h = record {
  before = [];
  event = e;
  after = es;
  reached = p;
  split = refl;
  accepted = refl;
  refused = ap (λ r. r.0) done ∙ ap err (same h);
}
  where
    same : go_on (err d, q) es ≡ err c → d ≡ c
    same k = cc

stops :
    (p : Projection) (es : List Event) (c : Category) → reduce_from p es ≡ err c → StopsAt p es c
unfolding reduce_from
stops p [] c h = cc
stops p (e ∷ es) c h =
    go_on-StopsAt (apply e p) p e es c refl (λ q. stops q es c) (sym (reduce_from-step p e es) ∙ h)

refused_stops :
    (p : Projection) (es : List Event) (c : Category) → StopsAt p es c → reduce_from p es ≡ err c
refused_stops p es c s =
    rw (s.split, reduce_from-append p s.before (s.event ∷ s.after), s.accepted)
      (reduce_from-step s.reached s.event s.after ∙ stays (apply s.event s.reached) s.refused)
  where
    stays : (r : Result (Unit {0}) × Projection) → r.0 ≡ err c → go_on r s.after ≡ err c
    stays (ok u, q) h = cc
    stays (err d, q) h = cc

-- A reduction fails with an error exactly when it accepts some first part of the journal and
-- `Apply` refuses the next event with that error.
pub reduce_from-err :
    (p : Projection) (es : List Event) (c : Category) → (reduce_from p es ≡ err c) ↔ StopsAt p es c
reduce_from-err p es c = (stops p es c, refused_stops p es c)

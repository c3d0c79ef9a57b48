-- ===== src/State/Replay/Order.antt =====
-- The order of the events that `Reduce` of internal/state accepts.
use dev_cadence.Prelude.{ℤ, pos, ◌≡◌, refl, ◌<ℤ◌, List, [], ◌∷◌}
use dev_cadence.Errs.{ok}
use dev_cadence.Events.Envelope.{Event, event_validate}
use dev_cadence.State.Projection.{Projection}
use dev_cadence.State.Apply.{reduce}
use dev_cadence.State.Replay.{Journal, stop, step, reduce-Journal}

-- Every event is valid, and its sequence number is greater than the one before it; the first is greater
-- than `low`.
abbrev pub Ascending : ℤ → List Event → Type 0
Ascending low [] = Unit
Ascending low (e ∷ es) = (event_validate e ≡ ok tt) × (low <ℤ e.seq) × Ascending e.seq es

-- The last sequence number, or `low` of an empty journal.
abbrev pub last_seq : ℤ → List Event → ℤ
last_seq low [] = low
last_seq low (e ∷ es) = last_seq e.seq es

Journal-Ascending :
    {p q : Projection} {es : List Event} (low : ℤ)
    → p.high_watermark ≡ low
    → Journal p es q
    → Ascending low es × (q.high_watermark ≡ last_seq low es)
Journal-Ascending low e stop = (tt, e)
Journal-Ascending {es = x ∷ xs} low e (step a j) =
    let (asc, mark) = Journal-Ascending x.seq a.watermark j in
    ((a.valid, rw (← e) a.newer, asc), mark)

-- In a journal that `Reduce` accepts every event is valid, the sequence numbers increase strictly
-- from above 0, and the watermark of the projection is the last of them.
pub reduce-Ascending :
    (es : List Event) (q : Projection)
    → reduce es ≡ ok q
    → Ascending (pos 0) es × (q.high_watermark ≡ last_seq (pos 0) es)
reduce-Ascending es q h = Journal-Ascending (pos 0) refl (reduce-Journal es h)

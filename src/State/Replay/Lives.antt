-- ===== src/State/Replay/Lives.antt =====
-- The lives of tasks and attempts through a journal that `Reduce` of internal/state accepts.
use dev_cadence.Prelude.{String, ◌≡◌, ◌⊎◌, ◌∙◌, refl, subst, inl, inr, some, List}
use dev_cadence.Dict.{get}
use dev_cadence.Errs.{ok}
use dev_cadence.Tasks.State.{State}
use dev_cadence.Tasks.State.Paths.{Walk, last}
use dev_cadence.Tasks.Task.{Task}
use dev_cadence.Tasks.Attempt.{Attempt, AttemptStatus}
use dev_cadence.Events.Envelope.{Event}
use dev_cadence.State.Projection.{Projection}
use dev_cadence.State.Apply.{reduce_from}
use dev_cadence.State.Core.{Core, core, SameTask}
use dev_cadence.State.Sound.{Sound}
use dev_cadence.State.Machine.History.{IsHistory, HasHistory, Move-attempt}
use dev_cadence.State.Replay.{Journal, stop, step, reduce_from-Journal}

-- The task kept its identity and followed legal edges only.
pub record Lived (t u : Task) : Type 0 where
  pub same : SameTask t u
  pub states : List State
  pub walk : Walk t.state states
  pub ends : last t.state states ≡ u.state

-- A walk along legal edges from PROPOSED.
pub record Walked (s : State) : Type 0 where
  pub states : List State
  pub walk : Walk State.proposed states
  pub ends : last State.proposed states ≡ s

abbrev AllWalked : Core → Type 0
AllWalked c = (id : String) (t : Task) → get c.tasks id ≡ some t → Walked t.state

IsHistory-on : {a b c : Attempt} → IsHistory a b → IsHistory b c → IsHistory a c
IsHistory-on {a} {b} {c} first later = record {
  same =
      let x = first.same in
      let y = later.same in
      record {
        id = y.id ∙ x.id;
        task_id = y.task_id ∙ x.task_id;
        ordinal = y.ordinal ∙ x.ordinal;
        work_package_id = y.work_package_id ∙ x.work_package_id;
        work_package_version = y.work_package_version ∙ x.work_package_version;
        base_commit = y.base_commit ∙ x.base_commit;
        started_at = y.started_at ∙ x.started_at;
        created_seq = y.created_seq ∙ x.created_seq;
      };
  settled = by_settled first.settled later.settled;
}
  where
    by_settled :
        (b ≡ a) ⊎ (a.status ≡ AttemptStatus.running)
        → (c ≡ b) ⊎ (b.status ≡ AttemptStatus.running)
        → (c ≡ a) ⊎ (a.status ≡ AttemptStatus.running)
    by_settled (inr r) l = inr r
    by_settled (inl e) (inl f) = inl (f ∙ e)
    by_settled (inl e) (inr r) = inr (subst (λ (x : Attempt). x.status ≡ AttemptStatus.running) e r)

Journal-attempt :
    {p q : Projection} {es : List Event}
    → Journal p es q
    → (id : String) (a : Attempt) → get p.attempts id ≡ some a
    → HasHistory q.attempts id a
Journal-attempt stop id a h = (
  a,
  h,
  record {
    same = record {
      id = refl;
      task_id = refl;
      ordinal = refl;
      work_package_id = refl;
      work_package_version = refl;
      base_commit = refl;
      started_at = refl;
      created_seq = refl;
    };
    settled = inl refl;
  },
)
Journal-attempt (step m j) id a h =
    let (b, hb, first) = Move-attempt m.lineage id a h in
    let (c, hc, later) = Journal-attempt j id b hb in (c, hc, IsHistory-on first later)

-- When a reduction from a sound projection succeeds, every attempt is still there under its id with
-- the same task, ordinal, work package version, base commit and creation, and it is untouched
-- unless it was running.
pub reduce_from-IsHistory :
    (p q : Projection) (es : List Event)
    → Sound (core p)
    → reduce_from p es ≡ ok q
    → (id : String) (a : Attempt) → get p.attempts id ≡ some a
    → HasHistory q.attempts id a
reduce_from-IsHistory p q es s h id a there =
    Journal-attempt (reduce_from-Journal p es s h) id a there

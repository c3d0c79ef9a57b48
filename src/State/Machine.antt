-- ===== src/State/Machine.antt =====
-- The abstract machine of the lineage and the invariant. Its history is in child modules.
pub mod History
pub mod Origin
use dev_cadence.Prelude.{
  String, ◌≡◌, ◌⊎◌, ◌∙◌, refl, sym, subst, true, none, some, inl, inr, Bool-cases, ◌==◌, eq_iff,
  arith,
}
use dev_cadence.Dict.{get, get-put, get-put_fresh, get-put_ne}
use dev_cadence.Errs.{ok}
use dev_cadence.Tasks.State.{can_transition}
use dev_cadence.Tasks.Task.{Task}
use dev_cadence.Tasks.Attempt.{Attempt, AttemptStatus}
use dev_cadence.State.Core.{
  Core, SameTask, SameAttempt, with_task, with_attempt, with_new_attempt, Records, nothing, start,
  finish, validate, review, Shifts, stay, create, move, accept, Move,
}
use dev_cadence.State.Sound.{Sound}
use dev_cadence.State.Sound.Attempts.{finish-Sound, start-Sound}
use dev_cadence.State.Sound.Evidence.{validate-Sound, review-Sound}
use dev_cadence.State.Sound.Tasks.{create-Sound, move-Sound, accept-Sound}

Records-Sound : {c d : Core} → Records c d → Sound c → Sound d
Records-Sound (nothing e) s = subst Sound (sym e) s
Records-Sound {c} (start t a q found at_running fresh none_running running valid e) s =
    subst Sound (sym e) (start-Sound c t a q found fresh at_running none_running valid s)
Records-Sound (finish id a b found running ended valid same e) s =
    subst Sound (sym e) (finish-Sound id a b found running same ended valid s)
Records-Sound {c} (validate id ref fresh about e) s =
    subst Sound (sym e) (validate-Sound c id ref fresh about s)
Records-Sound {c} (review id ref fresh about e) s =
    subst Sound (sym e) (review-Sound c id ref fresh about s)

Shifts-Sound : {c d : Core} → Shifts c d → Sound c → Sound d
Shifts-Sound (stay e) s = subst Sound (sym e) s
Shifts-Sound {c} (create t fresh free proposed valid e) s =
    subst Sound (sym e) (create-Sound c t fresh free proposed valid s)
Shifts-Sound {c} (move id t u found edge ne plan valid same e) s =
    subst Sound (sym e) (move-Sound c id t u found same edge ne plan valid s)
Shifts-Sound {c} (accept id t u found reviewing accepted just valid same e) s =
    subst Sound (sym e) (accept-Sound c id t u found same just valid s)

pub Move-Sound : {c d : Core} → Move c d → Sound c → Sound d
Move-Sound m s = Shifts-Sound m.shifted (Records-Sound m.recorded s)

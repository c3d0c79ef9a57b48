-- ===== src/Tasks/Attempt/Course.antt =====
-- What `CheckAttemptTransition` of internal/tasks/attempt.go accepts.
use dev_cadence.Prelude.{◌≡◌, ◌↔◌, true, false, arith}
use dev_cadence.Errs.{ok, err, integrity, invalid_argument}
use dev_cadence.Tasks.Attempt.{
  AttemptStatus, running, attempt_status_valid, attempt_terminal, check_attempt_transition,
}

-- `CheckAttemptTransition` succeeds exactly from RUNNING to a terminal status, reports an integrity
-- error exactly for an unknown stored status, and an invalid argument exactly for a known stored
-- status and an unknown target.
pub check_attempt_transition_outcomes :
    (s t : AttemptStatus)
    → ((check_attempt_transition s t ≡ ok tt) ↔ ((s ≡ running) × (attempt_terminal t ≡ true)))
      × ((check_attempt_transition s t ≡ err integrity) ↔ (attempt_status_valid s ≡ false))
      × ((check_attempt_transition s t ≡ err invalid_argument)
          ↔ ((attempt_status_valid s ≡ true) × (attempt_status_valid t ≡ false)))
unfolding check_attempt_transition attempt_terminal attempt_status_valid
check_attempt_transition_outcomes s t = ground arith

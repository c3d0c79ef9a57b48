-- ===== src/Events/Common.antt =====
-- The check that the payloads of internal/events/payloads_task.go share.
use dev_cadence.Prelude.{String, ◌==◌}
use dev_cadence.Errs.{Result, refuse, invalid_argument}

unfoldable pub require_task_id : String → Result (Unit {0})
require_task_id task_id = refuse (task_id == "") invalid_argument

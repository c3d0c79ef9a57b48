-- ===== src/Events/Payloads/Registry.antt =====
-- The registry of payload types of internal/events.
use dev_cadence.Prelude.{◌≡◌, refl, true}
use dev_cadence.Events.Payloads.{Payload, project_initialized, payload_type, registered}

-- The type of every payload is registered, so that `Validate` refuses no event because its
-- payload's type is unknown.
pub payload_type-registered : (q : Payload) → registered (payload_type q) ≡ true
unfolding payload_type registered
payload_type-registered (project_initialized p) = refl
payload_type-registered _ = refl

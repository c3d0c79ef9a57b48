-- ===== src/Events/Tests.antt =====
-- The theorem about the registry of payload types, at one payload; and paths that the check of modules lets
-- through.
use dev_cadence.Prelude.{◌≡◌, refl, true, false}
use dev_cadence.Protocol.Modules.{outside}
use dev_cadence.Events.Payloads.{Payload, risk_resolved, payload_type, registered}
use dev_cadence.Events.Payloads.Registry.{payload_type-registered}

abbrev resolved : Payload
resolved = risk_resolved (record { risk_id = "R"; resolution = "gone" })

payload_type-registered_example : registered (payload_type resolved) ≡ true
payload_type-registered_example = payload_type-registered resolved

-- Only a leading `..` is seen: this path leaves the repository.
outside_later_dots : outside "a/../../x" ≡ false
unfolding outside
outside_later_dots = refl

-- ===== src/Events/Envelope.antt =====
-- internal/events/event.go: the envelope of an event and its `Validate`. A nil payload is `none`.
use dev_cadence.Prelude.{ℤ, String, ◌==◌, not, Option, none, some, leb}
use dev_cadence.Errs.{Result, err, refuse, ◌>>◌, invalid_argument, integrity}
use dev_cadence.Protocol.Records.{Timestamp, Actor, actor_validate, schema_version_validate}
use dev_cadence.Events.Payloads.{Payload, payload_type, payload_validate, registered}

pub record Correlation : Type 0 where
  pub milestone_id : String
  pub task_id : String
  pub work_package_id : String
  pub attempt_id : String
  pub agent_run_id : String
  pub evidence_packet_id : String
  pub validation_id : String
  pub review_id : String
  pub consultation_id : String
  pub decision_id : String

pub record Event : Type 0 where
  pub seq : ℤ
  pub schema_version : String
  pub event_id : String
  pub project_id : String
  pub event_type : String
  pub occurred_at : Timestamp
  pub actor : Actor
  pub correlation : Correlation
  pub payload : Option Payload
  pub payload_digest : String

-- The checks of the payload, the last part of `Validate`.
unfoldable pub body_validate : String → Option Payload → Result (Unit {0})
unfolding payload_type payload_validate
body_validate event_type none = err invalid_argument
body_validate event_type (some p) = do
  refuse (not (payload_type p == event_type)) integrity
  payload_validate p

unfoldable pub event_validate : Event → Result (Unit {0})
unfolding schema_version_validate registered actor_validate body_validate
event_validate e = do
  schema_version_validate e.schema_version
  refuse (e.event_id == "") invalid_argument
  refuse (e.project_id == "") invalid_argument
  refuse (not (registered e.event_type)) invalid_argument
  actor_validate e.actor
  refuse (leb e.occurred_at 0) invalid_argument
  body_validate e.event_type e.payload

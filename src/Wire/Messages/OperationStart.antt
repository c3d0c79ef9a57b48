-- ===== src/Wire/Messages/OperationStart.antt =====
-- internal/flightrec/wire/types.go and codec.go: the message OperationStart.
use dev_cadence.Prelude.{ℕ, Option, none, some, List, [], ◌++◌, length, if◌then◌else◌}
use dev_cadence.Bytes.{Bytes, ◌==◌}
use dev_cadence.Wire.Proto.{Protowire}
use dev_cadence.Wire.Encoder.{
  Encoder, Writer, WireError, ◌⨟◌, unknown, limit, varint, int64, int32, boolean, present, str,
  bytes, msg, optional, each,
}
use dev_cadence.Wire.Encoder
use dev_cadence.Wire.Decoder.{
  Decoded, Field, unconsumed, Fields, scan, set_str, set_bytes, set_ptr, add_msg, max_links,
  max_artifacts,
}
use dev_cadence.Wire.Messages.Link
use dev_cadence.Wire.Messages.Link.{Link}
use dev_cadence.Wire.Messages.Stamp
use dev_cadence.Wire.Messages.Stamp.{Stamp}
use dev_cadence.Wire.Messages.ArtifactRef
use dev_cadence.Wire.Messages.ArtifactRef.{ArtifactRef}
use dev_cadence.Wire.Messages.Sanitization
use dev_cadence.Wire.Messages.Sanitization.{Sanitization}

pub record OperationStart : Type 0 where
  pub trace_id : Bytes
  pub operation_id : Bytes
  pub parent_operation_id : Bytes
  pub links : List Link
  pub operation_name : Bytes
  pub at : Option Stamp
  pub json_metadata : Bytes
  pub actor_id : Bytes
  pub task_id : Bytes
  pub attempt_id : Bytes
  pub canonical_event_id : Bytes
  pub artifacts : List ArtifactRef
  pub sanitization : Option Sanitization
  pub unknown : Bytes

abbrev pub empty : OperationStart
empty = record {
  trace_id = [];
  operation_id = [];
  parent_operation_id = [];
  links = [];
  operation_name = [];
  at = none;
  json_metadata = [];
  actor_id = [];
  task_id = [];
  attempt_id = [];
  canonical_event_id = [];
  artifacts = [];
  sanitization = none;
  unknown = [];
}

unfoldable pub encode : Protowire → OperationStart → Writer
encode p m =
    str p 1 m.trace_id
    ⨟ str p 2 m.operation_id
    ⨟ str p 3 m.parent_operation_id
    ⨟ limit (length m.links) max_links
    ⨟ each m.links (λ x. msg p 4 (Link.encode p x))
    ⨟ str p 5 m.operation_name
    ⨟ optional m.at (λ x. msg p 6 (Stamp.encode p x))
    ⨟ bytes p 7 m.json_metadata
    ⨟ str p 8 m.actor_id
    ⨟ str p 9 m.task_id
    ⨟ str p 10 m.attempt_id
    ⨟ str p 11 m.canonical_event_id
    ⨟ limit (length m.artifacts) max_artifacts
    ⨟ each m.artifacts (λ x. msg p 12 (ArtifactRef.encode p x))
    ⨟ optional m.sanitization (λ x. msg p 13 (Sanitization.encode p x))
    ⨟ unknown m.unknown

-- The callback of `scan`.
unfoldable pub field : Protowire → ℕ → ℕ → ℕ → Bytes → OperationStart → Field OperationStart
field p depth num typ v m =
    if num == 1
    then set_str p (λ x. record m { trace_id = x }) typ v
    else if num == 2
    then set_str p (λ x. record m { operation_id = x }) typ v
    else if num == 3
    then set_str p (λ x. record m { parent_operation_id = x }) typ v
    else if num == 4
    then add_msg p (Link.unmarshal_at p) m.links (λ xs. record m { links = xs }) max_links typ v
        depth
    else if num == 5
    then set_str p (λ x. record m { operation_name = x }) typ v
    else if num == 6
    then set_ptr p (Stamp.unmarshal_at p) (λ x. record m { at = some x }) typ v depth
    else if num == 7
    then set_bytes p (λ x. record m { json_metadata = x }) typ v
    else if num == 8
    then set_str p (λ x. record m { actor_id = x }) typ v
    else if num == 9
    then set_str p (λ x. record m { task_id = x }) typ v
    else if num == 10
    then set_str p (λ x. record m { attempt_id = x }) typ v
    else if num == 11
    then set_str p (λ x. record m { canonical_event_id = x }) typ v
    else if num == 12
    then add_msg p (ArtifactRef.unmarshal_at p) m.artifacts (λ xs. record m { artifacts = xs })
        max_artifacts typ v depth
    else if num == 13
    then set_ptr p (Sanitization.unmarshal_at p) (λ x. record m { sanitization = some x }) typ v
        depth
    else unconsumed

abbrev pub fields : Protowire → ℕ → Fields OperationStart
fields p depth = record {
  field = field p depth;
  keep = λ u m. record m { unknown = m.unknown ++ u };
}

unfoldable pub unmarshal_at : Protowire → ℕ → Bytes → Decoded OperationStart
unmarshal_at p depth b = scan p (fields p depth) b empty

unfoldable pub unmarshal : Protowire → Bytes → Decoded OperationStart
unmarshal p b = unmarshal_at p 0 b

unfoldable pub marshal : Protowire → OperationStart → Bytes × List WireError
marshal p m = Encoder.marshal (encode p m)

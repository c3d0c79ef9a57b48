-- ===== src/Wire/Messages/Observation.antt =====
-- internal/flightrec/wire/types.go and codec.go: the message Observation.
use dev_cadence.Prelude.{ℕ, Option, none, some, List, [], ◌++◌, length, ◌||◌, if◌then◌else◌}
use dev_cadence.Bytes.{Bytes, ◌==◌}
use dev_cadence.Wire.Proto.{Protowire}
use dev_cadence.Wire.Encoder.{
  Encoder, Writer, WireError, ◌⨟◌, unknown, limit, varint, int64, int32, boolean, present, str,
  bytes, msg, optional, each,
}
use dev_cadence.Wire.Encoder
use dev_cadence.Wire.Decoder.{
  Decoded, Field, unconsumed, Fields, scan, set_int, set_str, set_bytes, set_ptr, add_msg,
  max_links, max_artifacts,
}
use dev_cadence.Wire.Messages.Stamp
use dev_cadence.Wire.Messages.Stamp.{Stamp}
use dev_cadence.Wire.Messages.Subject
use dev_cadence.Wire.Messages.Subject.{Subject}
use dev_cadence.Wire.Messages.Provenance
use dev_cadence.Wire.Messages.Provenance.{Provenance}
use dev_cadence.Wire.Messages.ArtifactRef
use dev_cadence.Wire.Messages.ArtifactRef.{ArtifactRef}
use dev_cadence.Wire.Messages.Link
use dev_cadence.Wire.Messages.Link.{Link}
use dev_cadence.Wire.Messages.Sanitization
use dev_cadence.Wire.Messages.Sanitization.{Sanitization}
use dev_cadence.Wire.Messages.Any
use dev_cadence.Wire.Messages.Any.{Any}

pub record Observation : Type 0 where
  pub operation_id : Bytes
  pub at : Option Stamp
  pub name : Bytes
  pub kind : ℕ
  pub reason_code : Bytes
  pub subject : Option Subject
  pub provenance : Option Provenance
  pub evidence : ℕ
  pub artifacts : List ArtifactRef
  pub links : List Link
  pub sanitization : Option Sanitization
  pub json_payload : Option Bytes
  pub proto_payload : Option Any
  pub unknown : Bytes

abbrev pub empty : Observation
empty = record {
  operation_id = [];
  at = none;
  name = [];
  kind = 0;
  reason_code = [];
  subject = none;
  provenance = none;
  evidence = 0;
  artifacts = [];
  links = [];
  sanitization = none;
  json_payload = none;
  proto_payload = none;
  unknown = [];
}

unfoldable pub encode : Protowire → Observation → Writer
encode p m =
    str p 1 m.operation_id
    ⨟ optional m.at (λ x. msg p 2 (Stamp.encode p x))
    ⨟ str p 3 m.name
    ⨟ int32 p 4 m.kind
    ⨟ str p 5 m.reason_code
    ⨟ optional m.subject (λ x. msg p 6 (Subject.encode p x))
    ⨟ optional m.provenance (λ x. msg p 7 (Provenance.encode p x))
    ⨟ int32 p 8 m.evidence
    ⨟ limit (length m.artifacts) max_artifacts
    ⨟ each m.artifacts (λ x. msg p 9 (ArtifactRef.encode p x))
    ⨟ limit (length m.links) max_links
    ⨟ each m.links (λ x. msg p 10 (Link.encode p x))
    ⨟ optional m.sanitization (λ x. msg p 11 (Sanitization.encode p x))
    ⨟ optional m.json_payload (λ x. present p 20 x)
    ⨟ optional m.proto_payload (λ x. msg p 21 (Any.encode p x))
    ⨟ unknown m.unknown

-- One member of the oneof is set, and the others are cleared.
unfoldable pub set_payload : Protowire → ℕ → ℕ → Bytes → ℕ → Observation → Field Observation
set_payload p num typ v depth m =
    if num == 20
    then set_bytes p (λ x. record m { json_payload = some x; proto_payload = none }) typ v
    else set_ptr p (Any.unmarshal_at p)
        (λ x. record m { json_payload = none; proto_payload = some x }) typ v depth

-- The callback of `scan`.
unfoldable pub field : Protowire → ℕ → ℕ → ℕ → Bytes → Observation → Field Observation
field p depth num typ v m =
    if num == 1
    then set_str p (λ x. record m { operation_id = x }) typ v
    else if num == 2
    then set_ptr p (Stamp.unmarshal_at p) (λ x. record m { at = some x }) typ v depth
    else if num == 3
    then set_str p (λ x. record m { name = x }) typ v
    else if num == 4
    then set_int p 0x1_0000_0000 (λ x. record m { kind = x }) typ v
    else if num == 5
    then set_str p (λ x. record m { reason_code = x }) typ v
    else if num == 6
    then set_ptr p (Subject.unmarshal_at p) (λ x. record m { subject = some x }) typ v depth
    else if num == 7
    then set_ptr p (Provenance.unmarshal_at p) (λ x. record m { provenance = some x }) typ v depth
    else if num == 8
    then set_int p 0x1_0000_0000 (λ x. record m { evidence = x }) typ v
    else if num == 9
    then add_msg p (ArtifactRef.unmarshal_at p) m.artifacts (λ xs. record m { artifacts = xs })
        max_artifacts typ v depth
    else if num == 10
    then add_msg p (Link.unmarshal_at p) m.links (λ xs. record m { links = xs }) max_links typ v
        depth
    else if num == 11
    then set_ptr p (Sanitization.unmarshal_at p) (λ x. record m { sanitization = some x }) typ v
        depth
    else if num == 20 || num == 21
    then set_payload p num typ v depth m
    else unconsumed

abbrev pub fields : Protowire → ℕ → Fields Observation
fields p depth = record {
  field = field p depth;
  keep = λ u m. record m { unknown = m.unknown ++ u };
}

unfoldable pub unmarshal_at : Protowire → ℕ → Bytes → Decoded Observation
unmarshal_at p depth b = scan p (fields p depth) b empty

unfoldable pub unmarshal : Protowire → Bytes → Decoded Observation
unmarshal p b = unmarshal_at p 0 b

unfoldable pub marshal : Protowire → Observation → Bytes × List WireError
marshal p m = Encoder.marshal (encode p m)

-- ===== src/Wire/Messages/OperationEnd.antt =====
-- internal/flightrec/wire/types.go and codec.go: the message OperationEnd.
use dev_cadence.Prelude.{ℕ, Option, none, some, List, [], ◌++◌, length, if◌then◌else◌}
use dev_cadence.Bytes.{Bytes, ◌==◌}
use dev_cadence.Wire.Proto.{Protowire}
use dev_cadence.Wire.Encoder.{
  Encoder, Writer, WireError, ◌⨟◌, unknown, limit, varint, int64, int32, boolean, present, str,
  bytes, msg, optional, each,
}
use dev_cadence.Wire.Encoder
use dev_cadence.Wire.Decoder.{
  Decoded, Field, unconsumed, Fields, scan, set_int, set_str, set_bytes, set_ptr, add_msg,
  max_artifacts,
}
use dev_cadence.Wire.Messages.Stamp
use dev_cadence.Wire.Messages.Stamp.{Stamp}
use dev_cadence.Wire.Messages.Usage
use dev_cadence.Wire.Messages.Usage.{Usage}
use dev_cadence.Wire.Messages.ArtifactRef
use dev_cadence.Wire.Messages.ArtifactRef.{ArtifactRef}
use dev_cadence.Wire.Messages.Sanitization
use dev_cadence.Wire.Messages.Sanitization.{Sanitization}

pub record OperationEnd : Type 0 where
  pub operation_id : Bytes
  pub at : Option Stamp
  pub outcome : ℕ
  pub error_code : Bytes
  pub error_summary : Bytes
  pub json_result : Bytes
  pub usage : Option Usage
  pub artifacts : List ArtifactRef
  pub sanitization : Option Sanitization
  pub unknown : Bytes

abbrev pub empty : OperationEnd
empty = record {
  operation_id = [];
  at = none;
  outcome = 0;
  error_code = [];
  error_summary = [];
  json_result = [];
  usage = none;
  artifacts = [];
  sanitization = none;
  unknown = [];
}

unfoldable pub encode : Protowire → OperationEnd → Writer
encode p m =
    str p 1 m.operation_id
    ⨟ optional m.at (λ x. msg p 2 (Stamp.encode p x))
    ⨟ int32 p 3 m.outcome
    ⨟ str p 4 m.error_code
    ⨟ str p 5 m.error_summary
    ⨟ bytes p 6 m.json_result
    ⨟ optional m.usage (λ x. msg p 7 (Usage.encode p x))
    ⨟ limit (length m.artifacts) max_artifacts
    ⨟ each m.artifacts (λ x. msg p 8 (ArtifactRef.encode p x))
    ⨟ optional m.sanitization (λ x. msg p 9 (Sanitization.encode p x))
    ⨟ unknown m.unknown

-- The callback of `scan`.
unfoldable pub field : Protowire → ℕ → ℕ → ℕ → Bytes → OperationEnd → Field OperationEnd
field p depth num typ v m =
    if num == 1
    then set_str p (λ x. record m { operation_id = x }) typ v
    else if num == 2
    then set_ptr p (Stamp.unmarshal_at p) (λ x. record m { at = some x }) typ v depth
    else if num == 3
    then set_int p 0x1_0000_0000 (λ x. record m { outcome = x }) typ v
    else if num == 4
    then set_str p (λ x. record m { error_code = x }) typ v
    else if num == 5
    then set_str p (λ x. record m { error_summary = x }) typ v
    else if num == 6
    then set_bytes p (λ x. record m { json_result = x }) typ v
    else if num == 7
    then set_ptr p (Usage.unmarshal_at p) (λ x. record m { usage = some x }) typ v depth
    else if num == 8
    then add_msg p (ArtifactRef.unmarshal_at p) m.artifacts (λ xs. record m { artifacts = xs })
        max_artifacts typ v depth
    else if num == 9
    then set_ptr p (Sanitization.unmarshal_at p) (λ x. record m { sanitization = some x }) typ v
        depth
    else unconsumed

abbrev pub fields : Protowire → ℕ → Fields OperationEnd
fields p depth = record {
  field = field p depth;
  keep = λ u m. record m { unknown = m.unknown ++ u };
}

unfoldable pub unmarshal_at : Protowire → ℕ → Bytes → Decoded OperationEnd
unmarshal_at p depth b = scan p (fields p depth) b empty

unfoldable pub unmarshal : Protowire → Bytes → Decoded OperationEnd
unmarshal p b = unmarshal_at p 0 b

unfoldable pub marshal : Protowire → OperationEnd → Bytes × List WireError
marshal p m = Encoder.marshal (encode p m)

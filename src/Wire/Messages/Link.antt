-- ===== src/Wire/Messages/Link.antt =====
-- internal/flightrec/wire/types.go and codec.go: the message Link.
use dev_cadence.Prelude.{ℕ, List, [], ◌++◌, if◌then◌else◌}
use dev_cadence.Bytes.{Bytes, ◌==◌}
use dev_cadence.Wire.Proto.{Protowire}
use dev_cadence.Wire.Encoder.{
  Encoder, Writer, WireError, ◌⨟◌, unknown, limit, varint, int64, int32, boolean, present, str,
  bytes, msg, optional, each,
}
use dev_cadence.Wire.Encoder
use dev_cadence.Wire.Decoder.{Decoded, Field, unconsumed, Fields, scan, set_str}

pub record Link : Type 0 where
  pub relation : Bytes
  pub trace_id : Bytes
  pub operation_id : Bytes
  pub event_id : Bytes
  pub unknown : Bytes

abbrev pub empty : Link
empty = record { relation = []; trace_id = []; operation_id = []; event_id = []; unknown = [] }

unfoldable pub encode : Protowire → Link → Writer
encode p m =
    str p 1 m.relation
    ⨟ str p 2 m.trace_id
    ⨟ str p 3 m.operation_id
    ⨟ str p 4 m.event_id
    ⨟ unknown m.unknown

-- The callback of `scan`.
unfoldable pub field : Protowire → ℕ → ℕ → ℕ → Bytes → Link → Field Link
field p depth num typ v m =
    if num == 1
    then set_str p (λ x. record m { relation = x }) typ v
    else if num == 2
    then set_str p (λ x. record m { trace_id = x }) typ v
    else if num == 3
    then set_str p (λ x. record m { operation_id = x }) typ v
    else if num == 4
    then set_str p (λ x. record m { event_id = x }) typ v
    else unconsumed

abbrev pub fields : Protowire → ℕ → Fields Link
fields p depth = record {
  field = field p depth;
  keep = λ u m. record m { unknown = m.unknown ++ u };
}

unfoldable pub unmarshal_at : Protowire → ℕ → Bytes → Decoded Link
unmarshal_at p depth b = scan p (fields p depth) b empty

unfoldable pub unmarshal : Protowire → Bytes → Decoded Link
unmarshal p b = unmarshal_at p 0 b

unfoldable pub marshal : Protowire → Link → Bytes × List WireError
marshal p m = Encoder.marshal (encode p m)

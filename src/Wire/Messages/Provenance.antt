-- ===== src/Wire/Messages/Provenance.antt =====
-- internal/flightrec/wire/types.go and codec.go: the message Provenance.
use dev_cadence.Prelude.{ℕ, Option, none, some, List, [], ◌++◌, if◌then◌else◌}
use dev_cadence.Bytes.{Bytes, ◌==◌}
use dev_cadence.Wire.Proto.{Protowire}
use dev_cadence.Wire.Encoder.{
  Encoder, Writer, WireError, ◌⨟◌, unknown, limit, varint, int64, int32, boolean, present, str,
  bytes, msg, optional, each,
}
use dev_cadence.Wire.Encoder
use dev_cadence.Wire.Decoder.{Decoded, Field, unconsumed, Fields, scan, set_str, set_ptr}
use dev_cadence.Wire.Messages.Stamp
use dev_cadence.Wire.Messages.Stamp.{Stamp}

pub record Provenance : Type 0 where
  pub source_kind : Bytes
  pub source_ref : Bytes
  pub observed_by : Bytes
  pub method : Bytes
  pub observed_at : Option Stamp
  pub unknown : Bytes

abbrev pub empty : Provenance
empty = record {
  source_kind = [];
  source_ref = [];
  observed_by = [];
  method = [];
  observed_at = none;
  unknown = [];
}

unfoldable pub encode : Protowire → Provenance → Writer
encode p m =
    str p 1 m.source_kind
    ⨟ str p 2 m.source_ref
    ⨟ str p 3 m.observed_by
    ⨟ str p 4 m.method
    ⨟ optional m.observed_at (λ x. msg p 5 (Stamp.encode p x))
    ⨟ unknown m.unknown

-- The callback of `scan`.
unfoldable pub field : Protowire → ℕ → ℕ → ℕ → Bytes → Provenance → Field Provenance
field p depth num typ v m =
    if num == 1
    then set_str p (λ x. record m { source_kind = x }) typ v
    else if num == 2
    then set_str p (λ x. record m { source_ref = x }) typ v
    else if num == 3
    then set_str p (λ x. record m { observed_by = x }) typ v
    else if num == 4
    then set_str p (λ x. record m { method = x }) typ v
    else if num == 5
    then set_ptr p (Stamp.unmarshal_at p) (λ x. record m { observed_at = some x }) typ v depth
    else unconsumed

abbrev pub fields : Protowire → ℕ → Fields Provenance
fields p depth = record {
  field = field p depth;
  keep = λ u m. record m { unknown = m.unknown ++ u };
}

unfoldable pub unmarshal_at : Protowire → ℕ → Bytes → Decoded Provenance
unmarshal_at p depth b = scan p (fields p depth) b empty

unfoldable pub unmarshal : Protowire → Bytes → Decoded Provenance
unmarshal p b = unmarshal_at p 0 b

unfoldable pub marshal : Protowire → Provenance → Bytes × List WireError
marshal p m = Encoder.marshal (encode p m)

-- ===== src/Wire/Messages/Any.antt =====
-- internal/flightrec/wire/types.go and codec.go: the message Any.
use dev_cadence.Prelude.{ℕ, List, [], ◌++◌, if◌then◌else◌}
use dev_cadence.Bytes.{Bytes, ◌==◌}
use dev_cadence.Wire.Proto.{Protowire}
use dev_cadence.Wire.Encoder.{
  Encoder, Writer, WireError, ◌⨟◌, unknown, limit, varint, int64, int32, boolean, present, str,
  bytes, msg, optional, each,
}
use dev_cadence.Wire.Encoder
use dev_cadence.Wire.Decoder.{Decoded, Field, unconsumed, Fields, scan, set_str, set_bytes}

pub record Any : Type 0 where
  pub type_url : Bytes
  pub value : Bytes
  pub unknown : Bytes

abbrev pub empty : Any
empty = record { type_url = []; value = []; unknown = [] }

unfoldable pub encode : Protowire → Any → Writer
encode p m = str p 1 m.type_url ⨟ bytes p 2 m.value ⨟ unknown m.unknown

-- The callback of `scan`.
unfoldable pub field : Protowire → ℕ → ℕ → ℕ → Bytes → Any → Field Any
field p depth num typ v m =
    if num == 1
    then set_str p (λ x. record m { type_url = x }) typ v
    else if num == 2
    then set_bytes p (λ x. record m { value = x }) typ v
    else unconsumed

abbrev pub fields : Protowire → ℕ → Fields Any
fields p depth = record {
  field = field p depth;
  keep = λ u m. record m { unknown = m.unknown ++ u };
}

unfoldable pub unmarshal_at : Protowire → ℕ → Bytes → Decoded Any
unmarshal_at p depth b = scan p (fields p depth) b empty

unfoldable pub unmarshal : Protowire → Bytes → Decoded Any
unmarshal p b = unmarshal_at p 0 b

unfoldable pub marshal : Protowire → Any → Bytes × List WireError
marshal p m = Encoder.marshal (encode p m)

-- ===== src/Wire/Messages/Sanitization.antt =====
-- internal/flightrec/wire/types.go and codec.go: the message Sanitization.
use dev_cadence.Prelude.{ℕ, Bool, false, List, [], ◌++◌, if◌then◌else◌}
use dev_cadence.Bytes.{Bytes, ◌==◌}
use dev_cadence.Wire.Proto.{Protowire}
use dev_cadence.Wire.Encoder.{
  Encoder, Writer, WireError, ◌⨟◌, unknown, limit, varint, int64, int32, boolean, present, str,
  bytes, msg, optional, each,
}
use dev_cadence.Wire.Encoder
use dev_cadence.Wire.Decoder.{Decoded, Field, unconsumed, Fields, scan, set_int, set_bool}

pub record Sanitization : Type 0 where
  pub redactions : ℕ
  pub truncations : ℕ
  pub payload_replaced : Bool
  pub unknown : Bytes

abbrev pub empty : Sanitization
empty = record { redactions = 0; truncations = 0; payload_replaced = false; unknown = [] }

unfoldable pub encode : Protowire → Sanitization → Writer
encode p m =
    varint p 1 m.redactions
    ⨟ varint p 2 m.truncations
    ⨟ boolean p 3 m.payload_replaced
    ⨟ unknown m.unknown

-- The callback of `scan`.
unfoldable pub field : Protowire → ℕ → ℕ → ℕ → Bytes → Sanitization → Field Sanitization
field p depth num typ v m =
    if num == 1
    then set_int p 0x1_0000_0000 (λ x. record m { redactions = x }) typ v
    else if num == 2
    then set_int p 0x1_0000_0000 (λ x. record m { truncations = x }) typ v
    else if num == 3
    then set_bool p (λ x. record m { payload_replaced = x }) typ v
    else unconsumed

abbrev pub fields : Protowire → ℕ → Fields Sanitization
fields p depth = record {
  field = field p depth;
  keep = λ u m. record m { unknown = m.unknown ++ u };
}

unfoldable pub unmarshal_at : Protowire → ℕ → Bytes → Decoded Sanitization
unmarshal_at p depth b = scan p (fields p depth) b empty

unfoldable pub unmarshal : Protowire → Bytes → Decoded Sanitization
unmarshal p b = unmarshal_at p 0 b

unfoldable pub marshal : Protowire → Sanitization → Bytes × List WireError
marshal p m = Encoder.marshal (encode p m)

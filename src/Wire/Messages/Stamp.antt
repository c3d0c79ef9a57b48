-- ===== src/Wire/Messages/Stamp.antt =====
-- internal/flightrec/wire/types.go and codec.go: the message Stamp.
use dev_cadence.Prelude.{ℕ, List, [], ◌++◌, if◌then◌else◌}
use dev_cadence.Bytes.{Bytes, ◌==◌}
use dev_cadence.Wire.Proto.{Protowire}
use dev_cadence.Wire.Encoder.{
  Encoder, Writer, WireError, ◌⨟◌, unknown, limit, varint, int64, int32, boolean, present, str,
  bytes, msg, optional, each,
}
use dev_cadence.Wire.Encoder
use dev_cadence.Wire.Decoder.{Decoded, Field, unconsumed, Fields, scan, set_int}

pub record Stamp : Type 0 where
  pub wall_unix_nanos : ℕ
  pub mono_nanos : ℕ
  pub unknown : Bytes

abbrev pub empty : Stamp
empty = record { wall_unix_nanos = 0; mono_nanos = 0; unknown = [] }

unfoldable pub encode : Protowire → Stamp → Writer
encode p m = int64 p 1 m.wall_unix_nanos ⨟ int64 p 2 m.mono_nanos ⨟ unknown m.unknown

-- The callback of `scan`.
unfoldable pub field : Protowire → ℕ → ℕ → ℕ → Bytes → Stamp → Field Stamp
field p depth num typ v m =
    if num == 1
    then set_int p 0x1_0000_0000_0000_0000 (λ x. record m { wall_unix_nanos = x }) typ v
    else if num == 2
    then set_int p 0x1_0000_0000_0000_0000 (λ x. record m { mono_nanos = x }) typ v
    else unconsumed

abbrev pub fields : Protowire → ℕ → Fields Stamp
fields p depth = record {
  field = field p depth;
  keep = λ u m. record m { unknown = m.unknown ++ u };
}

unfoldable pub unmarshal_at : Protowire → ℕ → Bytes → Decoded Stamp
unmarshal_at p depth b = scan p (fields p depth) b empty

unfoldable pub unmarshal : Protowire → Bytes → Decoded Stamp
unmarshal p b = unmarshal_at p 0 b

unfoldable pub marshal : Protowire → Stamp → Bytes × List WireError
marshal p m = Encoder.marshal (encode p m)

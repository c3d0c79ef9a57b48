-- ===== src/Wire/Messages/Usage.antt =====
-- internal/flightrec/wire/types.go and codec.go: the message Usage.
use dev_cadence.Prelude.{ℕ, List, [], ◌++◌, if◌then◌else◌}
use dev_cadence.Bytes.{Bytes, ◌==◌}
use dev_cadence.Wire.Proto.{Protowire}
use dev_cadence.Wire.Encoder.{
  Encoder, Writer, WireError, ◌⨟◌, unknown, limit, varint, int64, int32, boolean, present, str,
  bytes, msg, optional, each,
}
use dev_cadence.Wire.Encoder
use dev_cadence.Wire.Decoder.{Decoded, Field, unconsumed, Fields, scan, set_int}

pub record Usage : Type 0 where
  pub input_tokens : ℕ
  pub output_tokens : ℕ
  pub duration_nanos : ℕ
  pub unknown : Bytes

abbrev pub empty : Usage
empty = record { input_tokens = 0; output_tokens = 0; duration_nanos = 0; unknown = [] }

unfoldable pub encode : Protowire → Usage → Writer
encode p m =
    varint p 1 m.input_tokens
    ⨟ varint p 2 m.output_tokens
    ⨟ varint p 3 m.duration_nanos
    ⨟ unknown m.unknown

-- The callback of `scan`.
unfoldable pub field : Protowire → ℕ → ℕ → ℕ → Bytes → Usage → Field Usage
field p depth num typ v m =
    if num == 1
    then set_int p 0x1_0000_0000_0000_0000 (λ x. record m { input_tokens = x }) typ v
    else if num == 2
    then set_int p 0x1_0000_0000_0000_0000 (λ x. record m { output_tokens = x }) typ v
    else if num == 3
    then set_int p 0x1_0000_0000_0000_0000 (λ x. record m { duration_nanos = x }) typ v
    else unconsumed

abbrev pub fields : Protowire → ℕ → Fields Usage
fields p depth = record {
  field = field p depth;
  keep = λ u m. record m { unknown = m.unknown ++ u };
}

unfoldable pub unmarshal_at : Protowire → ℕ → Bytes → Decoded Usage
unmarshal_at p depth b = scan p (fields p depth) b empty

unfoldable pub unmarshal : Protowire → Bytes → Decoded Usage
unmarshal p b = unmarshal_at p 0 b

unfoldable pub marshal : Protowire → Usage → Bytes × List WireError
marshal p m = Encoder.marshal (encode p m)

-- ===== src/Wire/Messages/Subject.antt =====
-- internal/flightrec/wire/types.go and codec.go: the message Subject.
use dev_cadence.Prelude.{ℕ, List, [], ◌++◌, if◌then◌else◌}
use dev_cadence.Bytes.{Bytes, ◌==◌}
use dev_cadence.Wire.Proto.{Protowire}
use dev_cadence.Wire.Encoder.{
  Encoder, Writer, WireError, ◌⨟◌, unknown, limit, varint, int64, int32, boolean, present, str,
  bytes, msg, optional, each,
}
use dev_cadence.Wire.Encoder
use dev_cadence.Wire.Decoder.{Decoded, Field, unconsumed, Fields, scan, set_str}

pub record Subject : Type 0 where
  pub kind : Bytes
  pub id : Bytes
  pub unknown : Bytes

abbrev pub empty : Subject
empty = record { kind = []; id = []; unknown = [] }

unfoldable pub encode : Protowire → Subject → Writer
encode p m = str p 1 m.kind ⨟ str p 2 m.id ⨟ unknown m.unknown

-- The callback of `scan`.
unfoldable pub field : Protowire → ℕ → ℕ → ℕ → Bytes → Subject → Field Subject
field p depth num typ v m =
    if num == 1
    then set_str p (λ x. record m { kind = x }) typ v
    else if num == 2
    then set_str p (λ x. record m { id = x }) typ v
    else unconsumed

abbrev pub fields : Protowire → ℕ → Fields Subject
fields p depth = record {
  field = field p depth;
  keep = λ u m. record m { unknown = m.unknown ++ u };
}

unfoldable pub unmarshal_at : Protowire → ℕ → Bytes → Decoded Subject
unmarshal_at p depth b = scan p (fields p depth) b empty

unfoldable pub unmarshal : Protowire → Bytes → Decoded Subject
unmarshal p b = unmarshal_at p 0 b

unfoldable pub marshal : Protowire → Subject → Bytes × List WireError
marshal p m = Encoder.marshal (encode p m)

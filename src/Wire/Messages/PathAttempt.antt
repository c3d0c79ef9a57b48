-- ===== src/Wire/Messages/PathAttempt.antt =====
-- internal/flightrec/wire/types.go and codec.go: the message PathAttempt.
use dev_cadence.Prelude.{ℕ, List, [], ◌++◌, if◌then◌else◌}
use dev_cadence.Bytes.{Bytes, ◌==◌}
use dev_cadence.Wire.Proto.{Protowire}
use dev_cadence.Wire.Encoder.{
  Encoder, Writer, WireError, ◌⨟◌, unknown, limit, varint, int64, int32, boolean, present, str,
  bytes, msg, optional, each,
}
use dev_cadence.Wire.Encoder
use dev_cadence.Wire.Decoder.{Decoded, Field, unconsumed, Fields, scan, set_str}

pub record PathAttempt : Type 0 where
  pub source : Bytes
  pub path : Bytes
  pub error_code : Bytes
  pub unknown : Bytes

abbrev pub empty : PathAttempt
empty = record { source = []; path = []; error_code = []; unknown = [] }

unfoldable pub encode : Protowire → PathAttempt → Writer
encode p m = str p 1 m.source ⨟ str p 2 m.path ⨟ str p 3 m.error_code ⨟ unknown m.unknown

-- The callback of `scan`.
unfoldable pub field : Protowire → ℕ → ℕ → ℕ → Bytes → PathAttempt → Field PathAttempt
field p depth num typ v m =
    if num == 1
    then set_str p (λ x. record m { source = x }) typ v
    else if num == 2
    then set_str p (λ x. record m { path = x }) typ v
    else if num == 3
    then set_str p (λ x. record m { error_code = x }) typ v
    else unconsumed

abbrev pub fields : Protowire → ℕ → Fields PathAttempt
fields p depth = record {
  field = field p depth;
  keep = λ u m. record m { unknown = m.unknown ++ u };
}

unfoldable pub unmarshal_at : Protowire → ℕ → Bytes → Decoded PathAttempt
unmarshal_at p depth b = scan p (fields p depth) b empty

unfoldable pub unmarshal : Protowire → Bytes → Decoded PathAttempt
unmarshal p b = unmarshal_at p 0 b

unfoldable pub marshal : Protowire → PathAttempt → Bytes × List WireError
marshal p m = Encoder.marshal (encode p m)

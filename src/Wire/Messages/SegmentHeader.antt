-- ===== src/Wire/Messages/SegmentHeader.antt =====
-- internal/flightrec/wire/types.go and codec.go: the message SegmentHeader.
use dev_cadence.Prelude.{ℕ, Option, none, some, List, [], ◌++◌, if◌then◌else◌}
use dev_cadence.Bytes.{Bytes, ◌==◌}
use dev_cadence.Wire.Proto.{Protowire}
use dev_cadence.Wire.Encoder.{
  Encoder, Writer, WireError, ◌⨟◌, unknown, limit, varint, int64, int32, boolean, present, str,
  bytes, msg, optional, each,
}
use dev_cadence.Wire.Encoder
use dev_cadence.Wire.Decoder.{Decoded, Field, unconsumed, Fields, scan, set_int, set_str, set_ptr}
use dev_cadence.Wire.Messages.Stamp
use dev_cadence.Wire.Messages.Stamp.{Stamp}

pub record SegmentHeader : Type 0 where
  pub schema_version : ℕ
  pub node_id : Bytes
  pub runtime_id : Bytes
  pub stream_id : Bytes
  pub segment_index : ℕ
  pub first_sequence : ℕ
  pub created_at : Option Stamp
  pub writer_pid : ℕ
  pub writer_version : Bytes
  pub max_record_bytes : ℕ
  pub mono_origin_wall_unix_nanos : ℕ
  pub unknown : Bytes

abbrev pub empty : SegmentHeader
empty = record {
  schema_version = 0;
  node_id = [];
  runtime_id = [];
  stream_id = [];
  segment_index = 0;
  first_sequence = 0;
  created_at = none;
  writer_pid = 0;
  writer_version = [];
  max_record_bytes = 0;
  mono_origin_wall_unix_nanos = 0;
  unknown = [];
}

unfoldable pub encode : Protowire → SegmentHeader → Writer
encode p m =
    varint p 1 m.schema_version
    ⨟ str p 2 m.node_id
    ⨟ str p 3 m.runtime_id
    ⨟ str p 4 m.stream_id
    ⨟ varint p 5 m.segment_index
    ⨟ varint p 6 m.first_sequence
    ⨟ optional m.created_at (λ x. msg p 7 (Stamp.encode p x))
    ⨟ varint p 8 m.writer_pid
    ⨟ str p 9 m.writer_version
    ⨟ varint p 10 m.max_record_bytes
    ⨟ int64 p 11 m.mono_origin_wall_unix_nanos
    ⨟ unknown m.unknown

-- The callback of `scan`.
unfoldable pub field : Protowire → ℕ → ℕ → ℕ → Bytes → SegmentHeader → Field SegmentHeader
field p depth num typ v m =
    if num == 1
    then set_int p 0x1_0000_0000 (λ x. record m { schema_version = x }) typ v
    else if num == 2
    then set_str p (λ x. record m { node_id = x }) typ v
    else if num == 3
    then set_str p (λ x. record m { runtime_id = x }) typ v
    else if num == 4
    then set_str p (λ x. record m { stream_id = x }) typ v
    else if num == 5
    then set_int p 0x1_0000_0000 (λ x. record m { segment_index = x }) typ v
    else if num == 6
    then set_int p 0x1_0000_0000_0000_0000 (λ x. record m { first_sequence = x }) typ v
    else if num == 7
    then set_ptr p (Stamp.unmarshal_at p) (λ x. record m { created_at = some x }) typ v depth
    else if num == 8
    then set_int p 0x1_0000_0000 (λ x. record m { writer_pid = x }) typ v
    else if num == 9
    then set_str p (λ x. record m { writer_version = x }) typ v
    else if num == 10
    then set_int p 0x1_0000_0000 (λ x. record m { max_record_bytes = x }) typ v
    else if num == 11
    then set_int p 0x1_0000_0000_0000_0000 (λ x. record m { mono_origin_wall_unix_nanos = x }) typ v
    else unconsumed

abbrev pub fields : Protowire → ℕ → Fields SegmentHeader
fields p depth = record {
  field = field p depth;
  keep = λ u m. record m { unknown = m.unknown ++ u };
}

unfoldable pub unmarshal_at : Protowire → ℕ → Bytes → Decoded SegmentHeader
unmarshal_at p depth b = scan p (fields p depth) b empty

unfoldable pub unmarshal : Protowire → Bytes → Decoded SegmentHeader
unmarshal p b = unmarshal_at p 0 b

unfoldable pub marshal : Protowire → SegmentHeader → Bytes × List WireError
marshal p m = Encoder.marshal (encode p m)

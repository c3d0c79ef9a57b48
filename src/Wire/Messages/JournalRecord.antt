-- ===== src/Wire/Messages/JournalRecord.antt =====
-- internal/flightrec/wire/types.go and codec.go: the message JournalRecord.
use dev_cadence.Prelude.{
  ℕ, ◌+◌, Bool, false, Option, none, some, List, [], ◌++◌, leb, ltb, ◌&&◌, ◌||◌, is_empty, is_some,
  not, if◌then◌else◌,
}
use dev_cadence.Bytes.{Bytes, ◌==◌}
use dev_cadence.Wire.Proto.{Protowire}
use dev_cadence.Wire.Encoder.{
  Encoder, Writer, WireError, ◌⨟◌, unknown, limit, varint, int64, int32, boolean, present, str,
  bytes, msg, optional, each,
}
use dev_cadence.Wire.Encoder
use dev_cadence.Wire.Decoder.{Decoded, Field, unconsumed, Fields, scan, set_int, set_str, set_ptr}
use dev_cadence.Wire.Messages.OperationStart
use dev_cadence.Wire.Messages.OperationStart.{OperationStart}
use dev_cadence.Wire.Messages.OperationEnd
use dev_cadence.Wire.Messages.OperationEnd.{OperationEnd}
use dev_cadence.Wire.Messages.Observation
use dev_cadence.Wire.Messages.Observation.{Observation}
use dev_cadence.Wire.Messages.JournalHealth
use dev_cadence.Wire.Messages.JournalHealth.{JournalHealth}

pub record JournalRecord : Type 0 where
  pub schema_version : ℕ
  pub event_id : Bytes
  pub node_id : Bytes
  pub runtime_id : Bytes
  pub stream_sequence : ℕ
  pub type : ℕ
  pub durability : ℕ
  pub stream_id : Bytes
  pub start : Option OperationStart
  pub end : Option OperationEnd
  pub observation : Option Observation
  pub health : Option JournalHealth
  pub unknown : Bytes

abbrev pub empty : JournalRecord
empty = record {
  schema_version = 0;
  event_id = [];
  node_id = [];
  runtime_id = [];
  stream_sequence = 0;
  type = 0;
  durability = 0;
  stream_id = [];
  start = none;
  end = none;
  observation = none;
  health = none;
  unknown = [];
}

unfoldable pub encode : Protowire → JournalRecord → Writer
encode p m =
    varint p 1 m.schema_version
    ⨟ str p 2 m.event_id
    ⨟ str p 3 m.node_id
    ⨟ str p 4 m.runtime_id
    ⨟ varint p 5 m.stream_sequence
    ⨟ int32 p 6 m.type
    ⨟ int32 p 7 m.durability
    ⨟ str p 8 m.stream_id
    ⨟ optional m.start (λ x. msg p 10 (OperationStart.encode p x))
    ⨟ optional m.end (λ x. msg p 11 (OperationEnd.encode p x))
    ⨟ optional m.observation (λ x. msg p 12 (Observation.encode p x))
    ⨟ optional m.health (λ x. msg p 13 (JournalHealth.encode p x))
    ⨟ unknown m.unknown

-- One member of the oneof is set, and the others are cleared.
unfoldable pub set_body : Protowire → ℕ → ℕ → Bytes → ℕ → JournalRecord → Field JournalRecord
set_body p num typ v depth m =
    if num == 10
    then set_ptr p (OperationStart.unmarshal_at p)
        (λ x. record m { start = some x; end = none; observation = none; health = none }) typ v
        depth
    else if num == 11
    then set_ptr p (OperationEnd.unmarshal_at p)
        (λ x. record m { start = none; end = some x; observation = none; health = none }) typ v
        depth
    else if num == 12
    then set_ptr p (Observation.unmarshal_at p)
        (λ x. record m { start = none; end = none; observation = some x; health = none }) typ v
        depth
    else set_ptr p (JournalHealth.unmarshal_at p)
        (λ x. record m { start = none; end = none; observation = none; health = some x }) typ v
        depth

-- The callback of `scan`.
unfoldable pub field : Protowire → ℕ → ℕ → ℕ → Bytes → JournalRecord → Field JournalRecord
field p depth num typ v m =
    if num == 1
    then set_int p 0x1_0000_0000 (λ x. record m { schema_version = x }) typ v
    else if num == 2
    then set_str p (λ x. record m { event_id = x }) typ v
    else if num == 3
    then set_str p (λ x. record m { node_id = x }) typ v
    else if num == 4
    then set_str p (λ x. record m { runtime_id = x }) typ v
    else if num == 5
    then set_int p 0x1_0000_0000_0000_0000 (λ x. record m { stream_sequence = x }) typ v
    else if num == 6
    then set_int p 0x1_0000_0000 (λ x. record m { type = x }) typ v
    else if num == 7
    then set_int p 0x1_0000_0000 (λ x. record m { durability = x }) typ v
    else if num == 8
    then set_str p (λ x. record m { stream_id = x }) typ v
    else if (num == 10 || num == 11) || (num == 12 || num == 13)
    then set_body p num typ v depth m
    else unconsumed

abbrev pub fields : Protowire → ℕ → Fields JournalRecord
fields p depth = record {
  field = field p depth;
  keep = λ u m. record m { unknown = m.unknown ++ u };
}

unfoldable pub unmarshal_at : Protowire → ℕ → Bytes → Decoded JournalRecord
unmarshal_at p depth b = scan p (fields p depth) b empty

unfoldable pub unmarshal : Protowire → Bytes → Decoded JournalRecord
unmarshal p b = unmarshal_at p 0 b

unfoldable pub marshal : Protowire → JournalRecord → Bytes × List WireError
marshal p m = Encoder.marshal (encode p m)

-- `RecordType`; a number that is none of these is the type of a future record.
abbrev pub unspecified : ℕ
unspecified = 0

abbrev pub operation_start : ℕ
operation_start = 1

abbrev pub operation_end : ℕ
operation_end = 2

abbrev pub observation_type : ℕ
observation_type = 3

abbrev pub journal_health : ℕ
journal_health = 4

unfoldable pub body_type : JournalRecord → ℕ
body_type m =
    if is_some m.start
    then operation_start
    else if is_some m.end
    then operation_end
    else if is_some m.observation
    then observation_type
    else if is_some m.health
    then journal_health
    else unspecified

unfoldable pub body_count : JournalRecord → ℕ
body_count m =
    ((if is_some m.start then 1 else 0) + (if is_some m.end then 1 else 0))
    + ((if is_some m.observation then 1 else 0) + (if is_some m.health then 1 else 0))

-- `Validate`: whether the record passes. A RecordType is an int32, whose upper half is negative.
unfoldable pub validate : JournalRecord → Bool
unfolding body_type body_count
validate m =
    if ltb m.schema_version 1
    then false
    else if (is_empty m.event_id || is_empty m.node_id)
        || (is_empty m.runtime_id || is_empty m.stream_id)
    then false
    else if ltb m.stream_sequence 1
    then false
    else if ltb 1 (body_count m)
    then false
    else if not (body_type m == unspecified)
    then m.type == body_type m
    else not (leb operation_start m.type && leb m.type journal_health)

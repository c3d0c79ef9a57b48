-- ===== src/Wire/Messages/JournalHealth.antt =====
-- internal/flightrec/wire/types.go and codec.go: the message JournalHealth.
use dev_cadence.Prelude.{ℕ, Option, none, some, List, [], ◌++◌, length, if◌then◌else◌}
use dev_cadence.Bytes.{Bytes, ◌==◌}
use dev_cadence.Wire.Proto.{Protowire}
use dev_cadence.Wire.Encoder.{
  Encoder, Writer, WireError, ◌⨟◌, unknown, limit, varint, int64, int32, boolean, present, str,
  bytes, msg, optional, each,
}
use dev_cadence.Wire.Encoder
use dev_cadence.Wire.Decoder.{
  Decoded, Field, unconsumed, Fields, scan, set_int, set_str, set_ptr, add_msg, max_attempts,
}
use dev_cadence.Wire.Messages.Stamp
use dev_cadence.Wire.Messages.Stamp.{Stamp}
use dev_cadence.Wire.Messages.PathAttempt
use dev_cadence.Wire.Messages.PathAttempt.{PathAttempt}

pub record JournalHealth : Type 0 where
  pub kind : ℕ
  pub at : Option Stamp
  pub dropped_count : ℕ
  pub first_missing_sequence : ℕ
  pub last_missing_sequence : ℕ
  pub detail_code : Bytes
  pub detail : Bytes
  pub attempts : List PathAttempt
  pub selected_source : Bytes
  pub offset : ℕ
  pub unknown : Bytes

abbrev pub empty : JournalHealth
empty = record {
  kind = 0;
  at = none;
  dropped_count = 0;
  first_missing_sequence = 0;
  last_missing_sequence = 0;
  detail_code = [];
  detail = [];
  attempts = [];
  selected_source = [];
  offset = 0;
  unknown = [];
}

unfoldable pub encode : Protowire → JournalHealth → Writer
encode p m =
    int32 p 1 m.kind
    ⨟ optional m.at (λ x. msg p 2 (Stamp.encode p x))
    ⨟ varint p 3 m.dropped_count
    ⨟ varint p 4 m.first_missing_sequence
    ⨟ varint p 5 m.last_missing_sequence
    ⨟ str p 6 m.detail_code
    ⨟ str p 7 m.detail
    ⨟ limit (length m.attempts) max_attempts
    ⨟ each m.attempts (λ x. msg p 8 (PathAttempt.encode p x))
    ⨟ str p 9 m.selected_source
    ⨟ int64 p 10 m.offset
    ⨟ unknown m.unknown

-- The callback of `scan`.
unfoldable pub field : Protowire → ℕ → ℕ → ℕ → Bytes → JournalHealth → Field JournalHealth
field p depth num typ v m =
    if num == 1
    then set_int p 0x1_0000_0000 (λ x. record m { kind = x }) typ v
    else if num == 2
    then set_ptr p (Stamp.unmarshal_at p) (λ x. record m { at = some x }) typ v depth
    else if num == 3
    then set_int p 0x1_0000_0000_0000_0000 (λ x. record m { dropped_count = x }) typ v
    else if num == 4
    then set_int p 0x1_0000_0000_0000_0000 (λ x. record m { first_missing_sequence = x }) typ v
    else if num == 5
    then set_int p 0x1_0000_0000_0000_0000 (λ x. record m { last_missing_sequence = x }) typ v
    else if num == 6
    then set_str p (λ x. record m { detail_code = x }) typ v
    else if num == 7
    then set_str p (λ x. record m { detail = x }) typ v
    else if num == 8
    then add_msg p (PathAttempt.unmarshal_at p) m.attempts (λ xs. record m { attempts = xs })
        max_attempts typ v depth
    else if num == 9
    then set_str p (λ x. record m { selected_source = x }) typ v
    else if num == 10
    then set_int p 0x1_0000_0000_0000_0000 (λ x. record m { offset = x }) typ v
    else unconsumed

abbrev pub fields : Protowire → ℕ → Fields JournalHealth
fields p depth = record {
  field = field p depth;
  keep = λ u m. record m { unknown = m.unknown ++ u };
}

unfoldable pub unmarshal_at : Protowire → ℕ → Bytes → Decoded JournalHealth
unmarshal_at p depth b = scan p (fields p depth) b empty

unfoldable pub unmarshal : Protowire → Bytes → Decoded JournalHealth
unmarshal p b = unmarshal_at p 0 b

unfoldable pub marshal : Protowire → JournalHealth → Bytes × List WireError
marshal p m = Encoder.marshal (encode p m)

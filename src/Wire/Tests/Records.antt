-- ===== src/Wire/Tests/Records.antt =====
-- internal/flightrec/wire: records, written and read back.
use dev_cadence.Prelude.{◌≡◌, refl, some, [], ◌∷◌, ◌++◌, subst, arith}
use dev_cadence.Bytes.{valid_utf8, drop}
use dev_cadence.Wire.Encoder.{WireError}
use dev_cadence.Wire.Decoder.{Decoded, scan, scan_loop, after_tag, after_value}
use dev_cadence.Wire.Messages.Stamp.{Stamp}
use dev_cadence.Wire.Messages.OperationEnd
use dev_cadence.Wire.Messages.OperationEnd.{OperationEnd}
use dev_cadence.Wire.Messages.JournalRecord.{
  JournalRecord, empty, field, fields, marshal, unmarshal, unmarshal_at, body_count,
}
use dev_cadence.Wire.RoundTrip.Children.{Foreign}
use dev_cadence.Wire.RoundTrip.Stamp as TripStamp
use dev_cadence.Wire.RoundTrip.OperationEnd as TripOperationEnd
use dev_cadence.Wire.RoundTrip.JournalRecord.{IsEncodable, unmarshal-marshal}
use dev_cadence.Wire.Tests.Protowire.{plain, plain-Laws}

abbrev now : Stamp
now = record { wall_unix_nanos = 5; mono_nanos = 18446744073709551615; unknown = [] }

abbrev finish : OperationEnd
finish = record OperationEnd.empty { operation_id = 111 ∷ 112 ∷ []; at = some now; outcome = 2 }

-- Field 99, a varint of 7, is one that no version of the decoder knows.
abbrev pub stored : JournalRecord
stored = record empty {
  schema_version = 1;
  event_id = 101 ∷ [];
  node_id = 110 ∷ [];
  runtime_id = 114 ∷ [];
  stream_sequence = 3;
  type = 2;
  durability = 4294967295;
  stream_id = 115 ∷ [];
  end = some finish;
  unknown = plain.append_tag 99 0 ++ (plain.append_varint 7 ++ []);
}

now-IsEncodable : TripStamp.IsEncodable plain now
now-IsEncodable = record {
  wall_unix_nanos_fits = omega arith;
  mono_nanos_fits = omega arith;
  unknown_foreign = Foreign.nil;
}

finish-IsEncodable : TripOperationEnd.IsEncodable plain finish
unfolding valid_utf8
finish-IsEncodable = record {
  operation_id_utf8 = refl;
  at_fits = λ c e. subst (TripStamp.IsEncodable plain) (cc) now-IsEncodable;
  outcome_fits = omega arith;
  error_code_utf8 = refl;
  error_summary_utf8 = refl;
  usage_fits = λ c e. cc;
  artifacts_room = omega arith;
  artifacts_fit = tt;
  sanitization_fits = λ c e. cc;
  unknown_foreign = Foreign.nil;
}

stored_unknown : Foreign plain (fields plain) stored.unknown
unfolding field plain
stored_unknown =
    Foreign.cons 99 0 (plain.append_varint 7) [] _ (omega arith) (omega arith) (omega arith)
      (λ rest. plain-Laws.varint_length 99 7 rest (omega arith)) (λ depth m. refl) Foreign.nil refl

pub stored-IsEncodable : IsEncodable plain stored
unfolding valid_utf8 body_count
stored-IsEncodable = record {
  schema_version_fits = omega arith;
  event_id_utf8 = refl;
  node_id_utf8 = refl;
  runtime_id_utf8 = refl;
  stream_sequence_fits = omega arith;
  type_fits = omega arith;
  durability_fits = omega arith;
  stream_id_utf8 = refl;
  start_fits = λ c e. cc;
  end_fits = λ c e. subst (TripOperationEnd.IsEncodable plain) (cc) finish-IsEncodable;
  observation_fits = λ c e. cc;
  health_fits = λ c e. cc;
  unknown_foreign = stored_unknown;
  one_body = omega arith;
}

unmarshal-marshal_example :
    ((marshal plain stored).1 ≡ []) × (unmarshal plain (marshal plain stored).0 ≡ Decoded.ok stored)
unmarshal-marshal_example = unmarshal-marshal plain plain-Laws stored stored-IsEncodable

-- A tag with no value behind it.
truncated : unmarshal plain (plain.append_tag 1 0) ≡ Decoded.fail WireError.malformed
unfolding unmarshal unmarshal_at field plain scan scan_loop after_tag after_value drop
truncated = refl

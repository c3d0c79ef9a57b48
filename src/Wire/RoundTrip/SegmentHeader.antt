-- ===== src/Wire/RoundTrip/SegmentHeader.antt =====
-- internal/flightrec/wire/codec.go: the message SegmentHeader, written and read back.
use dev_cadence.Prelude.{ℕ, suc, ◌+◌, ◌≤◌, ◌<◌, ◌≡◌, refl, true, some, [], arith}
use dev_cadence.Bytes.{valid_utf8}
use dev_cadence.Wire.Proto.{Protowire, Laws}
use dev_cadence.Wire.Decoder.{Decoded}
use dev_cadence.Wire.RoundTrip.Carry.{Carries, ◌▸◌}
use dev_cadence.Wire.RoundTrip.Scalars.{int-Carries, int64-Carries, str-Carries}
use dev_cadence.Wire.RoundTrip.Children.{
  Foreign, Travels, optional-Carries, unknown-Carries, Carries-Travels, Travels-marshal,
}
use dev_cadence.Wire.Messages.SegmentHeader.{
  SegmentHeader, empty, encode, field, fields, unmarshal_at, unmarshal, marshal,
}
use dev_cadence.Wire.Messages.Stamp
use dev_cadence.Wire.Messages.Stamp.{Stamp}
use dev_cadence.Wire.RoundTrip.Stamp as TripStamp

-- What a message meets to be read back as it is: numbers that fit, valid texts, lists within their caps,
-- nested messages that meet the same, and unknown bytes that are whole fields it does not know.
pub record IsEncodable (p : Protowire) (m : SegmentHeader) : Type 0 where
  pub schema_version_fits : m.schema_version < 0x1_0000_0000
  pub node_id_utf8 : valid_utf8 m.node_id ≡ true
  pub runtime_id_utf8 : valid_utf8 m.runtime_id ≡ true
  pub stream_id_utf8 : valid_utf8 m.stream_id ≡ true
  pub segment_index_fits : m.segment_index < 0x1_0000_0000
  pub first_sequence_fits : m.first_sequence < 0x1_0000_0000_0000_0000
  pub created_at_fits : (c : Stamp) → m.created_at ≡ some c → TripStamp.IsEncodable p c
  pub writer_pid_fits : m.writer_pid < 0x1_0000_0000
  pub writer_version_utf8 : valid_utf8 m.writer_version ≡ true
  pub max_record_bytes_fits : m.max_record_bytes < 0x1_0000_0000
  pub mono_origin_wall_unix_nanos_fits : m.mono_origin_wall_unix_nanos < 0x1_0000_0000_0000_0000
  pub unknown_foreign : Foreign p (fields p) m.unknown

module _ (p : Protowire) (l : Laws p) (depth : ℕ) (deep : depth + 1 ≤ 3) where
  written : (m : SegmentHeader) → IsEncodable p m → Carries p (fields p depth) (encode p m) empty m
  unfolding encode field
  written m v =
      let m1 = record empty { schema_version = m.schema_version } in
      let m2 = record m1 { node_id = m.node_id } in
      let m3 = record m2 { runtime_id = m.runtime_id } in
      let m4 = record m3 { stream_id = m.stream_id } in
      let m5 = record m4 { segment_index = m.segment_index } in
      let m6 = record m5 { first_sequence = m.first_sequence } in
      let m7 = record m6 { created_at = m.created_at } in
      let m8 = record m7 { writer_pid = m.writer_pid } in
      let m9 = record m8 { writer_version = m.writer_version } in
      let m10 = record m9 { max_record_bytes = m.max_record_bytes } in
      let m11 = record m10 { mono_origin_wall_unix_nanos = m.mono_origin_wall_unix_nanos } in
      int-Carries l 1 refl 0x1_0000_0000 (λ x. record empty { schema_version = x }) (omega arith)
        (omega arith) v.schema_version_fits refl (λ x. refl)
      ▸ str-Carries l 2 refl (λ x. record m1 { node_id = x }) m.node_id v.node_id_utf8 refl
          (λ x. refl)
      ▸ str-Carries l 3 refl (λ x. record m2 { runtime_id = x }) m.runtime_id v.runtime_id_utf8 refl
          (λ x. refl)
      ▸ str-Carries l 4 refl (λ x. record m3 { stream_id = x }) m.stream_id v.stream_id_utf8 refl
          (λ x. refl)
      ▸ int-Carries l 5 refl 0x1_0000_0000 (λ x. record m4 { segment_index = x }) (omega arith)
          (omega arith) v.segment_index_fits refl (λ x. refl)
      ▸ int-Carries l 6 refl 0x1_0000_0000_0000_0000 (λ x. record m5 { first_sequence = x })
          (omega arith) (omega arith) v.first_sequence_fits refl (λ x. refl)
      ▸ optional-Carries l 7 refl (Stamp.unmarshal_at p) (omega arith)
          (λ x. record m6 { created_at = x }) (Stamp.encode p) m.created_at
          (λ c e. TripStamp.encode-Travels p l (suc depth) c (v.created_at_fits c e)) refl
          (λ x. refl)
      ▸ int-Carries l 8 refl 0x1_0000_0000 (λ x. record m7 { writer_pid = x }) (omega arith)
          (omega arith) v.writer_pid_fits refl (λ x. refl)
      ▸ str-Carries l 9 refl (λ x. record m8 { writer_version = x }) m.writer_version
          v.writer_version_utf8 refl (λ x. refl)
      ▸ int-Carries l 10 refl 0x1_0000_0000 (λ x. record m9 { max_record_bytes = x }) (omega arith)
          (omega arith) v.max_record_bytes_fits refl (λ x. refl)
      ▸ int64-Carries l 11 refl (λ x. record m10 { mono_origin_wall_unix_nanos = x })
          v.mono_origin_wall_unix_nanos_fits refl (λ x. refl)
      ▸ unknown-Carries l depth (λ u. record m11 { unknown = u }) (λ w u. refl) m.unknown
          v.unknown_foreign

  pub encode-Travels :
      (m : SegmentHeader) → IsEncodable p m → Travels (encode p m) (unmarshal_at p depth) m
  unfolding unmarshal_at
  encode-Travels m v = Carries-Travels (written m v)

pub unmarshal_header-marshal :
    (p : Protowire)
    → Laws p
    → (m : SegmentHeader) → IsEncodable p m
    → ((marshal p m).1 ≡ []) × (unmarshal p (marshal p m).0 ≡ Decoded.ok m)
unfolding marshal unmarshal
unmarshal_header-marshal p l m v = Travels-marshal (encode-Travels p l 0 (omega arith) m v)

-- ===== src/Wire/RoundTrip/JournalRecord.antt =====
-- internal/flightrec/wire/codec.go: the message JournalRecord, written and read back.
use dev_cadence.Prelude.{ℕ, suc, ◌+◌, ◌≤◌, ◌<◌, ◌≡◌, refl, true, Option, none, some, [], arith}
use dev_cadence.Bytes.{valid_utf8}
use dev_cadence.Wire.Proto.{Protowire, Laws}
use dev_cadence.Wire.Encoder.{◌⨟◌, msg, optional}
use dev_cadence.Wire.Decoder.{Decoded}
use dev_cadence.Wire.RoundTrip.Carry.{Carries, ◌▸◌}
use dev_cadence.Wire.RoundTrip.Scalars.{int-Carries, int32-Carries, str-Carries}
use dev_cadence.Wire.RoundTrip.Children.{
  Foreign, Travels, optional-Carries, unknown-Carries, Carries-Travels, Travels-marshal,
}
use dev_cadence.Wire.Messages.JournalRecord.{
  JournalRecord, empty, encode, field, fields, unmarshal_at, unmarshal, marshal, set_body,
  body_count,
}
use dev_cadence.Wire.Messages.OperationStart
use dev_cadence.Wire.Messages.OperationStart.{OperationStart}
use dev_cadence.Wire.RoundTrip.OperationStart as TripOperationStart
use dev_cadence.Wire.Messages.OperationEnd
use dev_cadence.Wire.Messages.OperationEnd.{OperationEnd}
use dev_cadence.Wire.RoundTrip.OperationEnd as TripOperationEnd
use dev_cadence.Wire.Messages.Observation
use dev_cadence.Wire.Messages.Observation.{Observation}
use dev_cadence.Wire.RoundTrip.Observation as TripObservation
use dev_cadence.Wire.Messages.JournalHealth
use dev_cadence.Wire.Messages.JournalHealth.{JournalHealth}
use dev_cadence.Wire.RoundTrip.JournalHealth as TripJournalHealth

-- What a message meets to be read back as it is: numbers that fit, valid texts, lists within their caps,
-- nested messages that meet the same, at most one member of a oneof, and unknown bytes that are whole
-- fields it does not know. The encoder does not check the last two.
pub record IsEncodable (p : Protowire) (m : JournalRecord) : Type 0 where
  pub schema_version_fits : m.schema_version < 0x1_0000_0000
  pub event_id_utf8 : valid_utf8 m.event_id ≡ true
  pub node_id_utf8 : valid_utf8 m.node_id ≡ true
  pub runtime_id_utf8 : valid_utf8 m.runtime_id ≡ true
  pub stream_sequence_fits : m.stream_sequence < 0x1_0000_0000_0000_0000
  pub type_fits : m.type < 0x1_0000_0000
  pub durability_fits : m.durability < 0x1_0000_0000
  pub stream_id_utf8 : valid_utf8 m.stream_id ≡ true
  pub start_fits : (c : OperationStart) → m.start ≡ some c → TripOperationStart.IsEncodable p c
  pub end_fits : (c : OperationEnd) → m.end ≡ some c → TripOperationEnd.IsEncodable p c
  pub observation_fits :
      (c : Observation) → m.observation ≡ some c → TripObservation.IsEncodable p c
  pub health_fits : (c : JournalHealth) → m.health ≡ some c → TripJournalHealth.IsEncodable p c
  pub unknown_foreign : Foreign p (fields p) m.unknown
  pub one_body : body_count m ≤ 1

module _ (p : Protowire) (l : Laws p) (depth : ℕ) (deep : depth + 3 ≤ 3) where
  body_written :
      (m : JournalRecord) (s : Option OperationStart) (e : Option OperationEnd)
      (o : Option Observation) (h : Option JournalHealth)
      → body_count (record m { start = s; end = e; observation = o; health = h }) ≤ 1
      → ((c : OperationStart) → s ≡ some c → TripOperationStart.IsEncodable p c)
      → ((c : OperationEnd) → e ≡ some c → TripOperationEnd.IsEncodable p c)
      → ((c : Observation) → o ≡ some c → TripObservation.IsEncodable p c)
      → ((c : JournalHealth) → h ≡ some c → TripJournalHealth.IsEncodable p c)
      → Carries p
          (fields p depth)
          (optional s (λ x. msg p 10 (OperationStart.encode p x))
            ⨟ optional e (λ x. msg p 11 (OperationEnd.encode p x))
            ⨟ optional o (λ x. msg p 12 (Observation.encode p x))
            ⨟ optional h (λ x. msg p 13 (JournalHealth.encode p x)))
          (record m { start = none; end = none; observation = none; health = none })
          (record m { start = s; end = e; observation = o; health = h })
  unfolding field set_body body_count
  body_written m none none none h one fs fe fo fh =
      optional-Carries l 13 refl (JournalHealth.unmarshal_at p) (omega arith)
        (λ x. record m { start = none; end = none; observation = none; health = x })
        (JournalHealth.encode p) (h)
        (λ c eq. TripJournalHealth.encode-Travels p l (suc depth) (omega arith) c (fh c eq)) refl
        (λ x. refl)
  body_written m none none (some o) none one fs fe fo fh =
      optional-Carries l 12 refl (Observation.unmarshal_at p) (omega arith)
        (λ x. record m { start = none; end = none; observation = x; health = none })
        (Observation.encode p) (some o)
        (λ c eq. TripObservation.encode-Travels p l (suc depth) (omega arith) c (fo c eq)) refl
        (λ x. refl)
  body_written m none none (some o) (some h) one fs fe fo fh = absurd (omega arith)
  body_written m none (some e) none none one fs fe fo fh =
      optional-Carries l 11 refl (OperationEnd.unmarshal_at p) (omega arith)
        (λ x. record m { start = none; end = x; observation = none; health = none })
        (OperationEnd.encode p) (some e)
        (λ c eq. TripOperationEnd.encode-Travels p l (suc depth) (omega arith) c (fe c eq)) refl
        (λ x. refl)
  body_written m none (some e) none (some h) one fs fe fo fh = absurd (omega arith)
  body_written m none (some e) (some o) none one fs fe fo fh = absurd (omega arith)
  body_written m none (some e) (some o) (some h) one fs fe fo fh = absurd (omega arith)
  body_written m (some s) none none none one fs fe fo fh =
      optional-Carries l 10 refl (OperationStart.unmarshal_at p) (omega arith)
        (λ x. record m { start = x; end = none; observation = none; health = none })
        (OperationStart.encode p) (some s)
        (λ c eq. TripOperationStart.encode-Travels p l (suc depth) (omega arith) c (fs c eq)) refl
        (λ x. refl)
  body_written m (some s) none none (some h) one fs fe fo fh = absurd (omega arith)
  body_written m (some s) none (some o) none one fs fe fo fh = absurd (omega arith)
  body_written m (some s) none (some o) (some h) one fs fe fo fh = absurd (omega arith)
  body_written m (some s) (some e) none none one fs fe fo fh = absurd (omega arith)
  body_written m (some s) (some e) none (some h) one fs fe fo fh = absurd (omega arith)
  body_written m (some s) (some e) (some o) none one fs fe fo fh = absurd (omega arith)
  body_written m (some s) (some e) (some o) (some h) one fs fe fo fh = absurd (omega arith)

  written : (m : JournalRecord) → IsEncodable p m → Carries p (fields p depth) (encode p m) empty m
  unfolding encode field body_count
  written m v =
      let m1 = record empty { schema_version = m.schema_version } in
      let m2 = record m1 { event_id = m.event_id } in
      let m3 = record m2 { node_id = m.node_id } in
      let m4 = record m3 { runtime_id = m.runtime_id } in
      let m5 = record m4 { stream_sequence = m.stream_sequence } in
      let m6 = record m5 { type = m.type } in
      let m7 = record m6 { durability = m.durability } in
      let m8 = record m7 { stream_id = m.stream_id } in
      let m9 = record m8 {
        start = m.start;
        end = m.end;
        observation = m.observation;
        health = m.health;
      } in
      int-Carries l 1 refl 0x1_0000_0000 (λ x. record empty { schema_version = x }) (omega arith)
        (omega arith) v.schema_version_fits refl (λ x. refl)
      ▸ str-Carries l 2 refl (λ x. record m1 { event_id = x }) m.event_id v.event_id_utf8 refl
          (λ x. refl)
      ▸ str-Carries l 3 refl (λ x. record m2 { node_id = x }) m.node_id v.node_id_utf8 refl
          (λ x. refl)
      ▸ str-Carries l 4 refl (λ x. record m3 { runtime_id = x }) m.runtime_id v.runtime_id_utf8 refl
          (λ x. refl)
      ▸ int-Carries l 5 refl 0x1_0000_0000_0000_0000 (λ x. record m4 { stream_sequence = x })
          (omega arith) (omega arith) v.stream_sequence_fits refl (λ x. refl)
      ▸ int32-Carries l 6 refl (λ x. record m5 { type = x }) v.type_fits refl (λ x. refl)
      ▸ int32-Carries l 7 refl (λ x. record m6 { durability = x }) v.durability_fits refl
          (λ x. refl)
      ▸ str-Carries l 8 refl (λ x. record m7 { stream_id = x }) m.stream_id v.stream_id_utf8 refl
          (λ x. refl)
      ▸ body_written m8 m.start m.end m.observation m.health v.one_body v.start_fits v.end_fits
          v.observation_fits v.health_fits
      ▸ unknown-Carries l depth (λ u. record m9 { unknown = u }) (λ w u. refl) m.unknown
          v.unknown_foreign

  pub encode-Travels :
      (m : JournalRecord) → IsEncodable p m → Travels (encode p m) (unmarshal_at p depth) m
  unfolding unmarshal_at
  encode-Travels m v = Carries-Travels (written m v)

-- With protowire as it is documented, for a record that has at most one body, whose numbers fit their
-- types and whose texts are valid UTF-8, whose unknown bytes are whole fields that its decoder does not
-- know, and whose nested messages meet the same, with lists within the decoder's caps and at most one
-- payload of an observation: `Marshal` gives no error, and `Unmarshal` of the bytes is the record again,
-- with its nested messages, its repeated fields in order and its unknown fields.
pub unmarshal-marshal :
    (p : Protowire)
    → Laws p
    → (m : JournalRecord) → IsEncodable p m
    → ((marshal p m).1 ≡ []) × (unmarshal p (marshal p m).0 ≡ Decoded.ok m)
unfolding marshal unmarshal
unmarshal-marshal p l m v = Travels-marshal (encode-Travels p l 0 (omega arith) m v)

-- ===== src/Wire/RoundTrip/Observation.antt =====
-- internal/flightrec/wire/codec.go: the message Observation, written and read back.
use dev_cadence.Prelude.{
  ℕ, suc, ◌+◌, ◌≤◌, ◌<◌, ◌≡◌, ◌⊎◌, refl, true, Option, none, some, length, All, All-map, arith,
}
use dev_cadence.Bytes.{Bytes, valid_utf8}
use dev_cadence.Wire.Proto.{Protowire, Laws}
use dev_cadence.Wire.Encoder.{◌⨟◌, present, msg, optional}
use dev_cadence.Wire.Decoder.{set_bytes, max_links, max_artifacts}
use dev_cadence.Wire.RoundTrip.Carry.{Carries, ◌▸◌}
use dev_cadence.Wire.RoundTrip.Scalars.{
  limit-Carries, int32-Carries, present-Carries, str-Carries, delimited,
}
use dev_cadence.Wire.RoundTrip.Children.{
  Foreign, Travels, optional-Carries, list-Carries, unknown-Carries, Carries-Travels,
}
use dev_cadence.Wire.Messages.Observation.{
  Observation, empty, encode, field, fields, unmarshal_at, set_payload,
}
use dev_cadence.Wire.Messages.Stamp
use dev_cadence.Wire.Messages.Stamp.{Stamp}
use dev_cadence.Wire.RoundTrip.Stamp as TripStamp
use dev_cadence.Wire.Messages.Subject
use dev_cadence.Wire.Messages.Subject.{Subject}
use dev_cadence.Wire.RoundTrip.Subject as TripSubject
use dev_cadence.Wire.Messages.Provenance
use dev_cadence.Wire.Messages.Provenance.{Provenance}
use dev_cadence.Wire.RoundTrip.Provenance as TripProvenance
use dev_cadence.Wire.Messages.ArtifactRef
use dev_cadence.Wire.Messages.ArtifactRef.{ArtifactRef}
use dev_cadence.Wire.RoundTrip.ArtifactRef as TripArtifactRef
use dev_cadence.Wire.Messages.Link
use dev_cadence.Wire.Messages.Link.{Link}
use dev_cadence.Wire.RoundTrip.Link as TripLink
use dev_cadence.Wire.Messages.Sanitization
use dev_cadence.Wire.Messages.Sanitization.{Sanitization}
use dev_cadence.Wire.RoundTrip.Sanitization as TripSanitization
use dev_cadence.Wire.Messages.Any
use dev_cadence.Wire.Messages.Any.{Any}
use dev_cadence.Wire.RoundTrip.Any as TripAny

-- What a message meets to be read back as it is: numbers that fit, valid texts, lists within their caps,
-- nested messages that meet the same, at most one member of a oneof, and unknown bytes that are whole
-- fields it does not know. The encoder does not check the last two.
pub record IsEncodable (p : Protowire) (m : Observation) : Type 0 where
  pub operation_id_utf8 : valid_utf8 m.operation_id ≡ true
  pub at_fits : (c : Stamp) → m.at ≡ some c → TripStamp.IsEncodable p c
  pub name_utf8 : valid_utf8 m.name ≡ true
  pub kind_fits : m.kind < 0x1_0000_0000
  pub reason_code_utf8 : valid_utf8 m.reason_code ≡ true
  pub subject_fits : (c : Subject) → m.subject ≡ some c → TripSubject.IsEncodable p c
  pub provenance_fits : (c : Provenance) → m.provenance ≡ some c → TripProvenance.IsEncodable p c
  pub evidence_fits : m.evidence < 0x1_0000_0000
  pub artifacts_room : length m.artifacts ≤ max_artifacts
  pub artifacts_fit : All (TripArtifactRef.IsEncodable p) m.artifacts
  pub links_room : length m.links ≤ max_links
  pub links_fit : All (TripLink.IsEncodable p) m.links
  pub sanitization_fits :
      (c : Sanitization) → m.sanitization ≡ some c → TripSanitization.IsEncodable p c
  pub proto_payload_fits : (c : Any) → m.proto_payload ≡ some c → TripAny.IsEncodable p c
  pub unknown_foreign : Foreign p (fields p) m.unknown
  pub one_payload : (m.json_payload ≡ none) ⊎ (m.proto_payload ≡ none)

module _ (p : Protowire) (l : Laws p) (depth : ℕ) (deep : depth + 2 ≤ 3) where
  payload_written :
      (m : Observation) (js : Option Bytes) (pp : Option Any)
      → (js ≡ none) ⊎ (pp ≡ none)
      → ((c : Any) → pp ≡ some c → TripAny.IsEncodable p c)
      → Carries p
          (fields p depth)
          (optional js (λ x. present p 20 x) ⨟ optional pp (λ x. msg p 21 (Any.encode p x)))
          (record m { json_payload = none; proto_payload = none })
          (record m { json_payload = js; proto_payload = pp })
  unfolding field set_payload
  payload_written m none pp one fits =
      optional-Carries l 21 refl (Any.unmarshal_at p) (omega arith)
        (λ x. record m { json_payload = none; proto_payload = x }) (Any.encode p) pp
        (λ c e. TripAny.encode-Travels p l (suc depth) c (fits c e)) refl (λ x. refl)
  payload_written m (some js) none one fits =
      present-Carries l 20 refl js _ _ (unfold set_bytes in rw (delimited l js) refl)
  payload_written m (some js) (some pp) one fits = ground arith

  written : (m : Observation) → IsEncodable p m → Carries p (fields p depth) (encode p m) empty m
  unfolding encode field
  written m v =
      let m1 = record empty { operation_id = m.operation_id } in
      let m2 = record m1 { at = m.at } in
      let m3 = record m2 { name = m.name } in
      let m4 = record m3 { kind = m.kind } in
      let m5 = record m4 { reason_code = m.reason_code } in
      let m6 = record m5 { subject = m.subject } in
      let m7 = record m6 { provenance = m.provenance } in
      let m8 = record m7 { evidence = m.evidence } in
      let m9 = record m8 { artifacts = m.artifacts } in
      let m10 = record m9 { links = m.links } in
      let m11 = record m10 { sanitization = m.sanitization } in
      let m12 = record m11 { json_payload = m.json_payload; proto_payload = m.proto_payload } in
      str-Carries l 1 refl (λ x. record empty { operation_id = x }) m.operation_id
        v.operation_id_utf8 refl (λ x. refl)
      ▸ optional-Carries l 2 refl (Stamp.unmarshal_at p) (omega arith) (λ x. record m1 { at = x })
          (Stamp.encode p) m.at (λ c e. TripStamp.encode-Travels p l (suc depth) c (v.at_fits c e))
          refl (λ x. refl)
      ▸ str-Carries l 3 refl (λ x. record m2 { name = x }) m.name v.name_utf8 refl (λ x. refl)
      ▸ int32-Carries l 4 refl (λ x. record m3 { kind = x }) v.kind_fits refl (λ x. refl)
      ▸ str-Carries l 5 refl (λ x. record m4 { reason_code = x }) m.reason_code v.reason_code_utf8
          refl (λ x. refl)
      ▸ optional-Carries l 6 refl (Subject.unmarshal_at p) (omega arith)
          (λ x. record m5 { subject = x }) (Subject.encode p) m.subject
          (λ c e. TripSubject.encode-Travels p l (suc depth) c (v.subject_fits c e)) refl
          (λ x. refl)
      ▸ optional-Carries l 7 refl (Provenance.unmarshal_at p) (omega arith)
          (λ x. record m6 { provenance = x }) (Provenance.encode p) m.provenance
          (λ c e.
            TripProvenance.encode-Travels p l (suc depth) (omega arith) c (v.provenance_fits c e))
          refl (λ x. refl)
      ▸ int32-Carries l 8 refl (λ x. record m7 { evidence = x }) v.evidence_fits refl (λ x. refl)
      ▸ limit-Carries (length m.artifacts) max_artifacts m8 v.artifacts_room
      ▸ list-Carries l 9 refl (ArtifactRef.unmarshal_at p) (omega arith)
          (λ x. record m8 { artifacts = x }) (ArtifactRef.encode p) m.artifacts max_artifacts
          v.artifacts_room
          (All-map (λ c h. TripArtifactRef.encode-Travels p l (suc depth) c h) m.artifacts
            v.artifacts_fit)
          (λ xs x. refl)
      ▸ limit-Carries (length m.links) max_links m9 v.links_room
      ▸ list-Carries l 10 refl (Link.unmarshal_at p) (omega arith) (λ x. record m9 { links = x })
          (Link.encode p) m.links max_links v.links_room
          (All-map (λ c h. TripLink.encode-Travels p l (suc depth) c h) m.links v.links_fit)
          (λ xs x. refl)
      ▸ optional-Carries l 11 refl (Sanitization.unmarshal_at p) (omega arith)
          (λ x. record m10 { sanitization = x }) (Sanitization.encode p) m.sanitization
          (λ c e. TripSanitization.encode-Travels p l (suc depth) c (v.sanitization_fits c e)) refl
          (λ x. refl)
      ▸ payload_written m11 m.json_payload m.proto_payload v.one_payload v.proto_payload_fits
      ▸ unknown-Carries l depth (λ u. record m12 { unknown = u }) (λ w u. refl) m.unknown
          v.unknown_foreign

  pub encode-Travels :
      (m : Observation) → IsEncodable p m → Travels (encode p m) (unmarshal_at p depth) m
  unfolding unmarshal_at
  encode-Travels m v = Carries-Travels (written m v)

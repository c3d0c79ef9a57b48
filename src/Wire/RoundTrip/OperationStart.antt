-- ===== src/Wire/RoundTrip/OperationStart.antt =====
-- internal/flightrec/wire/codec.go: the message OperationStart, written and read back.
use dev_cadence.Prelude.{ℕ, suc, ◌+◌, ◌≤◌, ◌≡◌, refl, true, some, length, All, All-map, arith}
use dev_cadence.Bytes.{valid_utf8}
use dev_cadence.Wire.Proto.{Protowire, Laws}
use dev_cadence.Wire.Decoder.{max_links, max_artifacts}
use dev_cadence.Wire.RoundTrip.Carry.{Carries, ◌▸◌}
use dev_cadence.Wire.RoundTrip.Scalars.{limit-Carries, str-Carries, bytes-Carries}
use dev_cadence.Wire.RoundTrip.Children.{
  Foreign, Travels, optional-Carries, list-Carries, unknown-Carries, Carries-Travels,
}
use dev_cadence.Wire.Messages.OperationStart.{
  OperationStart, empty, encode, field, fields, unmarshal_at,
}
use dev_cadence.Wire.Messages.Link
use dev_cadence.Wire.Messages.Link.{Link}
use dev_cadence.Wire.RoundTrip.Link as TripLink
use dev_cadence.Wire.Messages.Stamp
use dev_cadence.Wire.Messages.Stamp.{Stamp}
use dev_cadence.Wire.RoundTrip.Stamp as TripStamp
use dev_cadence.Wire.Messages.ArtifactRef
use dev_cadence.Wire.Messages.ArtifactRef.{ArtifactRef}
use dev_cadence.Wire.RoundTrip.ArtifactRef as TripArtifactRef
use dev_cadence.Wire.Messages.Sanitization
use dev_cadence.Wire.Messages.Sanitization.{Sanitization}
use dev_cadence.Wire.RoundTrip.Sanitization as TripSanitization

-- What a message meets to be read back as it is: numbers that fit, valid texts, lists within their caps,
-- nested messages that meet the same, and unknown bytes that are whole fields it does not know.
pub record IsEncodable (p : Protowire) (m : OperationStart) : Type 0 where
  pub trace_id_utf8 : valid_utf8 m.trace_id ≡ true
  pub operation_id_utf8 : valid_utf8 m.operation_id ≡ true
  pub parent_operation_id_utf8 : valid_utf8 m.parent_operation_id ≡ true
  pub links_room : length m.links ≤ max_links
  pub links_fit : All (TripLink.IsEncodable p) m.links
  pub operation_name_utf8 : valid_utf8 m.operation_name ≡ true
  pub at_fits : (c : Stamp) → m.at ≡ some c → TripStamp.IsEncodable p c
  pub actor_id_utf8 : valid_utf8 m.actor_id ≡ true
  pub task_id_utf8 : valid_utf8 m.task_id ≡ true
  pub attempt_id_utf8 : valid_utf8 m.attempt_id ≡ true
  pub canonical_event_id_utf8 : valid_utf8 m.canonical_event_id ≡ true
  pub artifacts_room : length m.artifacts ≤ max_artifacts
  pub artifacts_fit : All (TripArtifactRef.IsEncodable p) m.artifacts
  pub sanitization_fits :
      (c : Sanitization) → m.sanitization ≡ some c → TripSanitization.IsEncodable p c
  pub unknown_foreign : Foreign p (fields p) m.unknown

module _ (p : Protowire) (l : Laws p) (depth : ℕ) (deep : depth + 1 ≤ 3) where
  written : (m : OperationStart) → IsEncodable p m → Carries p (fields p depth) (encode p m) empty m
  unfolding encode field
  written m v =
      let m1 = record empty { trace_id = m.trace_id } in
      let m2 = record m1 { operation_id = m.operation_id } in
      let m3 = record m2 { parent_operation_id = m.parent_operation_id } in
      let m4 = record m3 { links = m.links } in
      let m5 = record m4 { operation_name = m.operation_name } in
      let m6 = record m5 { at = m.at } in
      let m7 = record m6 { json_metadata = m.json_metadata } in
      let m8 = record m7 { actor_id = m.actor_id } in
      let m9 = record m8 { task_id = m.task_id } in
      let m10 = record m9 { attempt_id = m.attempt_id } in
      let m11 = record m10 { canonical_event_id = m.canonical_event_id } in
      let m12 = record m11 { artifacts = m.artifacts } in
      let m13 = record m12 { sanitization = m.sanitization } in
      str-Carries l 1 refl (λ x. record empty { trace_id = x }) m.trace_id v.trace_id_utf8 refl
        (λ x. refl)
      ▸ str-Carries l 2 refl (λ x. record m1 { operation_id = x }) m.operation_id
          v.operation_id_utf8 refl (λ x. refl)
      ▸ str-Carries l 3 refl (λ x. record m2 { parent_operation_id = x }) m.parent_operation_id
          v.parent_operation_id_utf8 refl (λ x. refl)
      ▸ limit-Carries (length m.links) max_links m3 v.links_room
      ▸ list-Carries l 4 refl (Link.unmarshal_at p) (omega arith) (λ x. record m3 { links = x })
          (Link.encode p) m.links max_links v.links_room
          (All-map (λ c h. TripLink.encode-Travels p l (suc depth) c h) m.links v.links_fit)
          (λ xs x. refl)
      ▸ str-Carries l 5 refl (λ x. record m4 { operation_name = x }) m.operation_name
          v.operation_name_utf8 refl (λ x. refl)
      ▸ optional-Carries l 6 refl (Stamp.unmarshal_at p) (omega arith) (λ x. record m5 { at = x })
          (Stamp.encode p) m.at (λ c e. TripStamp.encode-Travels p l (suc depth) c (v.at_fits c e))
          refl (λ x. refl)
      ▸ bytes-Carries l 7 refl (λ x. record m6 { json_metadata = x }) m.json_metadata refl
          (λ x. refl)
      ▸ str-Carries l 8 refl (λ x. record m7 { actor_id = x }) m.actor_id v.actor_id_utf8 refl
          (λ x. refl)
      ▸ str-Carries l 9 refl (λ x. record m8 { task_id = x }) m.task_id v.task_id_utf8 refl
          (λ x. refl)
      ▸ str-Carries l 10 refl (λ x. record m9 { attempt_id = x }) m.attempt_id v.attempt_id_utf8
          refl (λ x. refl)
      ▸ str-Carries l 11 refl (λ x. record m10 { canonical_event_id = x }) m.canonical_event_id
          v.canonical_event_id_utf8 refl (λ x. refl)
      ▸ limit-Carries (length m.artifacts) max_artifacts m11 v.artifacts_room
      ▸ list-Carries l 12 refl (ArtifactRef.unmarshal_at p) (omega arith)
          (λ x. record m11 { artifacts = x }) (ArtifactRef.encode p) m.artifacts max_artifacts
          v.artifacts_room
          (All-map (λ c h. TripArtifactRef.encode-Travels p l (suc depth) c h) m.artifacts
            v.artifacts_fit)
          (λ xs x. refl)
      ▸ optional-Carries l 13 refl (Sanitization.unmarshal_at p) (omega arith)
          (λ x. record m12 { sanitization = x }) (Sanitization.encode p) m.sanitization
          (λ c e. TripSanitization.encode-Travels p l (suc depth) c (v.sanitization_fits c e)) refl
          (λ x. refl)
      ▸ unknown-Carries l depth (λ u. record m13 { unknown = u }) (λ w u. refl) m.unknown
          v.unknown_foreign

  pub encode-Travels :
      (m : OperationStart) → IsEncodable p m → Travels (encode p m) (unmarshal_at p depth) m
  unfolding unmarshal_at
  encode-Travels m v = Carries-Travels (written m v)

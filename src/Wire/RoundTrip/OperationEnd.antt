-- ===== src/Wire/RoundTrip/OperationEnd.antt =====
-- internal/flightrec/wire/codec.go: the message OperationEnd, written and read back.
use dev_cadence.Prelude.{ℕ, suc, ◌+◌, ◌≤◌, ◌<◌, ◌≡◌, refl, true, some, length, All, All-map, arith}
use dev_cadence.Bytes.{valid_utf8}
use dev_cadence.Wire.Proto.{Protowire, Laws}
use dev_cadence.Wire.Decoder.{max_artifacts}
use dev_cadence.Wire.RoundTrip.Carry.{Carries, ◌▸◌}
use dev_cadence.Wire.RoundTrip.Scalars.{limit-Carries, int32-Carries, str-Carries, bytes-Carries}
use dev_cadence.Wire.RoundTrip.Children.{
  Foreign, Travels, optional-Carries, list-Carries, unknown-Carries, Carries-Travels,
}
use dev_cadence.Wire.Messages.OperationEnd.{
  OperationEnd, empty, encode, field, fields, unmarshal_at,
}
use dev_cadence.Wire.Messages.Stamp
use dev_cadence.Wire.Messages.Stamp.{Stamp}
use dev_cadence.Wire.RoundTrip.Stamp as TripStamp
use dev_cadence.Wire.Messages.Usage
use dev_cadence.Wire.Messages.Usage.{Usage}
use dev_cadence.Wire.RoundTrip.Usage as TripUsage
use dev_cadence.Wire.Messages.ArtifactRef
use dev_cadence.Wire.Messages.ArtifactRef.{ArtifactRef}
use dev_cadence.Wire.RoundTrip.ArtifactRef as TripArtifactRef
use dev_cadence.Wire.Messages.Sanitization
use dev_cadence.Wire.Messages.Sanitization.{Sanitization}
use dev_cadence.Wire.RoundTrip.Sanitization as TripSanitization

-- What a message meets to be read back as it is: numbers that fit, valid texts, lists within their caps,
-- nested messages that meet the same, and unknown bytes that are whole fields it does not know.
pub record IsEncodable (p : Protowire) (m : OperationEnd) : Type 0 where
  pub operation_id_utf8 : valid_utf8 m.operation_id ≡ true
  pub at_fits : (c : Stamp) → m.at ≡ some c → TripStamp.IsEncodable p c
  pub outcome_fits : m.outcome < 0x1_0000_0000
  pub error_code_utf8 : valid_utf8 m.error_code ≡ true
  pub error_summary_utf8 : valid_utf8 m.error_summary ≡ true
  pub usage_fits : (c : Usage) → m.usage ≡ some c → TripUsage.IsEncodable p c
  pub artifacts_room : length m.artifacts ≤ max_artifacts
  pub artifacts_fit : All (TripArtifactRef.IsEncodable p) m.artifacts
  pub sanitization_fits :
      (c : Sanitization) → m.sanitization ≡ some c → TripSanitization.IsEncodable p c
  pub unknown_foreign : Foreign p (fields p) m.unknown

module _ (p : Protowire) (l : Laws p) (depth : ℕ) (deep : depth + 1 ≤ 3) where
  written : (m : OperationEnd) → IsEncodable p m → Carries p (fields p depth) (encode p m) empty m
  unfolding encode field
  written m v =
      let m1 = record empty { operation_id = m.operation_id } in
      let m2 = record m1 { at = m.at } in
      let m3 = record m2 { outcome = m.outcome } in
      let m4 = record m3 { error_code = m.error_code } in
      let m5 = record m4 { error_summary = m.error_summary } in
      let m6 = record m5 { json_result = m.json_result } in
      let m7 = record m6 { usage = m.usage } in
      let m8 = record m7 { artifacts = m.artifacts } in
      let m9 = record m8 { sanitization = m.sanitization } in
      str-Carries l 1 refl (λ x. record empty { operation_id = x }) m.operation_id
        v.operation_id_utf8 refl (λ x. refl)
      ▸ optional-Carries l 2 refl (Stamp.unmarshal_at p) (omega arith) (λ x. record m1 { at = x })
          (Stamp.encode p) m.at (λ c e. TripStamp.encode-Travels p l (suc depth) c (v.at_fits c e))
          refl (λ x. refl)
      ▸ int32-Carries l 3 refl (λ x. record m2 { outcome = x }) v.outcome_fits refl (λ x. refl)
      ▸ str-Carries l 4 refl (λ x. record m3 { error_code = x }) m.error_code v.error_code_utf8 refl
          (λ x. refl)
      ▸ str-Carries l 5 refl (λ x. record m4 { error_summary = x }) m.error_summary
          v.error_summary_utf8 refl (λ x. refl)
      ▸ bytes-Carries l 6 refl (λ x. record m5 { json_result = x }) m.json_result refl (λ x. refl)
      ▸ optional-Carries l 7 refl (Usage.unmarshal_at p) (omega arith)
          (λ x. record m6 { usage = x }) (Usage.encode p) m.usage
          (λ c e. TripUsage.encode-Travels p l (suc depth) c (v.usage_fits c e)) refl (λ x. refl)
      ▸ limit-Carries (length m.artifacts) max_artifacts m7 v.artifacts_room
      ▸ list-Carries l 8 refl (ArtifactRef.unmarshal_at p) (omega arith)
          (λ x. record m7 { artifacts = x }) (ArtifactRef.encode p) m.artifacts max_artifacts
          v.artifacts_room
          (All-map (λ c h. TripArtifactRef.encode-Travels p l (suc depth) c h) m.artifacts
            v.artifacts_fit)
          (λ xs x. refl)
      ▸ optional-Carries l 9 refl (Sanitization.unmarshal_at p) (omega arith)
          (λ x. record m8 { sanitization = x }) (Sanitization.encode p) m.sanitization
          (λ c e. TripSanitization.encode-Travels p l (suc depth) c (v.sanitization_fits c e)) refl
          (λ x. refl)
      ▸ unknown-Carries l depth (λ u. record m9 { unknown = u }) (λ w u. refl) m.unknown
          v.unknown_foreign

  pub encode-Travels :
      (m : OperationEnd) → IsEncodable p m → Travels (encode p m) (unmarshal_at p depth) m
  unfolding unmarshal_at
  encode-Travels m v = Carries-Travels (written m v)

-- ===== src/Wire/RoundTrip/Provenance.antt =====
-- internal/flightrec/wire/codec.go: the message Provenance, written and read back.
use dev_cadence.Prelude.{ℕ, suc, ◌+◌, ◌≤◌, ◌≡◌, refl, true, some, arith}
use dev_cadence.Bytes.{valid_utf8}
use dev_cadence.Wire.Proto.{Protowire, Laws}
use dev_cadence.Wire.RoundTrip.Carry.{Carries, ◌▸◌}
use dev_cadence.Wire.RoundTrip.Scalars.{str-Carries}
use dev_cadence.Wire.RoundTrip.Children.{
  Foreign, Travels, optional-Carries, unknown-Carries, Carries-Travels,
}
use dev_cadence.Wire.Messages.Provenance.{Provenance, empty, encode, field, fields, unmarshal_at}
use dev_cadence.Wire.Messages.Stamp
use dev_cadence.Wire.Messages.Stamp.{Stamp}
use dev_cadence.Wire.RoundTrip.Stamp as TripStamp

-- What a message meets to be read back as it is: numbers that fit, valid texts, lists within their caps,
-- nested messages that meet the same, and unknown bytes that are whole fields it does not know.
pub record IsEncodable (p : Protowire) (m : Provenance) : Type 0 where
  pub source_kind_utf8 : valid_utf8 m.source_kind ≡ true
  pub source_ref_utf8 : valid_utf8 m.source_ref ≡ true
  pub observed_by_utf8 : valid_utf8 m.observed_by ≡ true
  pub method_utf8 : valid_utf8 m.method ≡ true
  pub observed_at_fits : (c : Stamp) → m.observed_at ≡ some c → TripStamp.IsEncodable p c
  pub unknown_foreign : Foreign p (fields p) m.unknown

module _ (p : Protowire) (l : Laws p) (depth : ℕ) (deep : depth + 1 ≤ 3) where
  written : (m : Provenance) → IsEncodable p m → Carries p (fields p depth) (encode p m) empty m
  unfolding encode field
  written m v =
      let m1 = record empty { source_kind = m.source_kind } in
      let m2 = record m1 { source_ref = m.source_ref } in
      let m3 = record m2 { observed_by = m.observed_by } in
      let m4 = record m3 { method = m.method } in
      let m5 = record m4 { observed_at = m.observed_at } in
      str-Carries l 1 refl (λ x. record empty { source_kind = x }) m.source_kind v.source_kind_utf8
        refl (λ x. refl)
      ▸ str-Carries l 2 refl (λ x. record m1 { source_ref = x }) m.source_ref v.source_ref_utf8 refl
          (λ x. refl)
      ▸ str-Carries l 3 refl (λ x. record m2 { observed_by = x }) m.observed_by v.observed_by_utf8
          refl (λ x. refl)
      ▸ str-Carries l 4 refl (λ x. record m3 { method = x }) m.method v.method_utf8 refl (λ x. refl)
      ▸ optional-Carries l 5 refl (Stamp.unmarshal_at p) (omega arith)
          (λ x. record m4 { observed_at = x }) (Stamp.encode p) m.observed_at
          (λ c e. TripStamp.encode-Travels p l (suc depth) c (v.observed_at_fits c e)) refl
          (λ x. refl)
      ▸ unknown-Carries l depth (λ u. record m5 { unknown = u }) (λ w u. refl) m.unknown
          v.unknown_foreign

  pub encode-Travels :
      (m : Provenance) → IsEncodable p m → Travels (encode p m) (unmarshal_at p depth) m
  unfolding unmarshal_at
  encode-Travels m v = Carries-Travels (written m v)

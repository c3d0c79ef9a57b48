-- ===== src/Wire/RoundTrip/ArtifactRef.antt =====
-- internal/flightrec/wire/codec.go: the message ArtifactRef, written and read back.
use dev_cadence.Prelude.{ℕ, ◌<◌, ◌≡◌, refl, true}
use dev_cadence.Bytes.{valid_utf8}
use dev_cadence.Wire.Proto.{Protowire, Laws}
use dev_cadence.Wire.RoundTrip.Carry.{Carries, ◌▸◌}
use dev_cadence.Wire.RoundTrip.Scalars.{int64-Carries, bool-Carries, str-Carries}
use dev_cadence.Wire.RoundTrip.Children.{Foreign, Travels, unknown-Carries, Carries-Travels}
use dev_cadence.Wire.Messages.ArtifactRef.{ArtifactRef, empty, encode, field, fields, unmarshal_at}

-- What a message meets to be read back as it is: numbers that fit, valid texts, lists within their caps,
-- nested messages that meet the same, and unknown bytes that are whole fields it does not know.
pub record IsEncodable (p : Protowire) (m : ArtifactRef) : Type 0 where
  pub id_utf8 : valid_utf8 m.id ≡ true
  pub kind_utf8 : valid_utf8 m.kind ≡ true
  pub locator_utf8 : valid_utf8 m.locator ≡ true
  pub media_type_utf8 : valid_utf8 m.media_type ≡ true
  pub digest_utf8 : valid_utf8 m.digest ≡ true
  pub size_bytes_fits : m.size_bytes < 0x1_0000_0000_0000_0000
  pub unknown_foreign : Foreign p (fields p) m.unknown

module _ (p : Protowire) (l : Laws p) (depth : ℕ) where
  written : (m : ArtifactRef) → IsEncodable p m → Carries p (fields p depth) (encode p m) empty m
  unfolding encode field
  written m v =
      let m1 = record empty { id = m.id } in
      let m2 = record m1 { kind = m.kind } in
      let m3 = record m2 { locator = m.locator } in
      let m4 = record m3 { media_type = m.media_type } in
      let m5 = record m4 { digest = m.digest } in
      let m6 = record m5 { size_bytes = m.size_bytes } in
      let m7 = record m6 { truncated = m.truncated } in
      let m8 = record m7 { digest_verified = m.digest_verified } in
      str-Carries l 1 refl (λ x. record empty { id = x }) m.id v.id_utf8 refl (λ x. refl)
      ▸ str-Carries l 2 refl (λ x. record m1 { kind = x }) m.kind v.kind_utf8 refl (λ x. refl)
      ▸ str-Carries l 3 refl (λ x. record m2 { locator = x }) m.locator v.locator_utf8 refl
          (λ x. refl)
      ▸ str-Carries l 4 refl (λ x. record m3 { media_type = x }) m.media_type v.media_type_utf8 refl
          (λ x. refl)
      ▸ str-Carries l 5 refl (λ x. record m4 { digest = x }) m.digest v.digest_utf8 refl (λ x. refl)
      ▸ int64-Carries l 6 refl (λ x. record m5 { size_bytes = x }) v.size_bytes_fits refl
          (λ x. refl)
      ▸ bool-Carries l 7 refl (λ x. record m6 { truncated = x }) m.truncated refl (λ x. refl)
      ▸ bool-Carries l 8 refl (λ x. record m7 { digest_verified = x }) m.digest_verified refl
          (λ x. refl)
      ▸ unknown-Carries l depth (λ u. record m8 { unknown = u }) (λ w u. refl) m.unknown
          v.unknown_foreign

  pub encode-Travels :
      (m : ArtifactRef) → IsEncodable p m → Travels (encode p m) (unmarshal_at p depth) m
  unfolding unmarshal_at
  encode-Travels m v = Carries-Travels (written m v)

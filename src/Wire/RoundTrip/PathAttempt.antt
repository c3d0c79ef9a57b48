-- ===== src/Wire/RoundTrip/PathAttempt.antt =====
-- internal/flightrec/wire/codec.go: the message PathAttempt, written and read back.
use dev_cadence.Prelude.{ℕ, ◌≡◌, refl, true}
use dev_cadence.Bytes.{valid_utf8}
use dev_cadence.Wire.Proto.{Protowire, Laws}
use dev_cadence.Wire.RoundTrip.Carry.{Carries, ◌▸◌}
use dev_cadence.Wire.RoundTrip.Scalars.{str-Carries}
use dev_cadence.Wire.RoundTrip.Children.{Foreign, Travels, unknown-Carries, Carries-Travels}
use dev_cadence.Wire.Messages.PathAttempt.{PathAttempt, empty, encode, field, fields, unmarshal_at}

-- What a message meets to be read back as it is: numbers that fit, valid texts, lists within their caps,
-- nested messages that meet the same, and unknown bytes that are whole fields it does not know.
pub record IsEncodable (p : Protowire) (m : PathAttempt) : Type 0 where
  pub source_utf8 : valid_utf8 m.source ≡ true
  pub path_utf8 : valid_utf8 m.path ≡ true
  pub error_code_utf8 : valid_utf8 m.error_code ≡ true
  pub unknown_foreign : Foreign p (fields p) m.unknown

module _ (p : Protowire) (l : Laws p) (depth : ℕ) where
  written : (m : PathAttempt) → IsEncodable p m → Carries p (fields p depth) (encode p m) empty m
  unfolding encode field
  written m v =
      let m1 = record empty { source = m.source } in
      let m2 = record m1 { path = m.path } in
      let m3 = record m2 { error_code = m.error_code } in
      str-Carries l 1 refl (λ x. record empty { source = x }) m.source v.source_utf8 refl
        (λ x. refl)
      ▸ str-Carries l 2 refl (λ x. record m1 { path = x }) m.path v.path_utf8 refl (λ x. refl)
      ▸ str-Carries l 3 refl (λ x. record m2 { error_code = x }) m.error_code v.error_code_utf8 refl
          (λ x. refl)
      ▸ unknown-Carries l depth (λ u. record m3 { unknown = u }) (λ w u. refl) m.unknown
          v.unknown_foreign

  pub encode-Travels :
      (m : PathAttempt) → IsEncodable p m → Travels (encode p m) (unmarshal_at p depth) m
  unfolding unmarshal_at
  encode-Travels m v = Carries-Travels (written m v)

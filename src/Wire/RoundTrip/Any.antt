-- ===== src/Wire/RoundTrip/Any.antt =====
-- internal/flightrec/wire/codec.go: the message Any, written and read back.
use dev_cadence.Prelude.{ℕ, ◌≡◌, refl, true}
use dev_cadence.Bytes.{valid_utf8}
use dev_cadence.Wire.Proto.{Protowire, Laws}
use dev_cadence.Wire.RoundTrip.Carry.{Carries, ◌▸◌}
use dev_cadence.Wire.RoundTrip.Scalars.{str-Carries, bytes-Carries}
use dev_cadence.Wire.RoundTrip.Children.{Foreign, Travels, unknown-Carries, Carries-Travels}
use dev_cadence.Wire.Messages.Any.{Any, empty, encode, field, fields, unmarshal_at}

-- What a message meets to be read back as it is: numbers that fit, valid texts, lists within their caps,
-- nested messages that meet the same, and unknown bytes that are whole fields it does not know.
pub record IsEncodable (p : Protowire) (m : Any) : Type 0 where
  pub type_url_utf8 : valid_utf8 m.type_url ≡ true
  pub unknown_foreign : Foreign p (fields p) m.unknown

module _ (p : Protowire) (l : Laws p) (depth : ℕ) where
  written : (m : Any) → IsEncodable p m → Carries p (fields p depth) (encode p m) empty m
  unfolding encode field
  written m v =
      let m1 = record empty { type_url = m.type_url } in
      let m2 = record m1 { value = m.value } in
      str-Carries l 1 refl (λ x. record empty { type_url = x }) m.type_url v.type_url_utf8 refl
        (λ x. refl)
      ▸ bytes-Carries l 2 refl (λ x. record m1 { value = x }) m.value refl (λ x. refl)
      ▸ unknown-Carries l depth (λ u. record m2 { unknown = u }) (λ w u. refl) m.unknown
          v.unknown_foreign

  pub encode-Travels : (m : Any) → IsEncodable p m → Travels (encode p m) (unmarshal_at p depth) m
  unfolding unmarshal_at
  encode-Travels m v = Carries-Travels (written m v)

-- ===== src/Wire/RoundTrip/Link.antt =====
-- internal/flightrec/wire/codec.go: the message Link, written and read back.
use dev_cadence.Prelude.{ℕ, ◌≡◌, refl, true}
use dev_cadence.Bytes.{valid_utf8}
use dev_cadence.Wire.Proto.{Protowire, Laws}
use dev_cadence.Wire.RoundTrip.Carry.{Carries, ◌▸◌}
use dev_cadence.Wire.RoundTrip.Scalars.{str-Carries}
use dev_cadence.Wire.RoundTrip.Children.{Foreign, Travels, unknown-Carries, Carries-Travels}
use dev_cadence.Wire.Messages.Link.{Link, empty, encode, field, fields, unmarshal_at}

-- What a message meets to be read back as it is: numbers that fit, valid texts, lists within their caps,
-- nested messages that meet the same, and unknown bytes that are whole fields it does not know.
pub record IsEncodable (p : Protowire) (m : Link) : Type 0 where
  pub relation_utf8 : valid_utf8 m.relation ≡ true
  pub trace_id_utf8 : valid_utf8 m.trace_id ≡ true
  pub operation_id_utf8 : valid_utf8 m.operation_id ≡ true
  pub event_id_utf8 : valid_utf8 m.event_id ≡ true
  pub unknown_foreign : Foreign p (fields p) m.unknown

module _ (p : Protowire) (l : Laws p) (depth : ℕ) where
  written : (m : Link) → IsEncodable p m → Carries p (fields p depth) (encode p m) empty m
  unfolding encode field
  written m v =
      let m1 = record empty { relation = m.relation } in
      let m2 = record m1 { trace_id = m.trace_id } in
      let m3 = record m2 { operation_id = m.operation_id } in
      let m4 = record m3 { event_id = m.event_id } in
      str-Carries l 1 refl (λ x. record empty { relation = x }) m.relation v.relation_utf8 refl
        (λ x. refl)
      ▸ str-Carries l 2 refl (λ x. record m1 { trace_id = x }) m.trace_id v.trace_id_utf8 refl
          (λ x. refl)
      ▸ str-Carries l 3 refl (λ x. record m2 { operation_id = x }) m.operation_id
          v.operation_id_utf8 refl (λ x. refl)
      ▸ str-Carries l 4 refl (λ x. record m3 { event_id = x }) m.event_id v.event_id_utf8 refl
          (λ x. refl)
      ▸ unknown-Carries l depth (λ u. record m4 { unknown = u }) (λ w u. refl) m.unknown
          v.unknown_foreign

  pub encode-Travels : (m : Link) → IsEncodable p m → Travels (encode p m) (unmarshal_at p depth) m
  unfolding unmarshal_at
  encode-Travels m v = Carries-Travels (written m v)

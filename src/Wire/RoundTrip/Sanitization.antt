-- ===== src/Wire/RoundTrip/Sanitization.antt =====
-- internal/flightrec/wire/codec.go: the message Sanitization, written and read back.
use dev_cadence.Prelude.{ℕ, ◌<◌, refl, arith}
use dev_cadence.Wire.Proto.{Protowire, Laws}
use dev_cadence.Wire.RoundTrip.Carry.{Carries, ◌▸◌}
use dev_cadence.Wire.RoundTrip.Scalars.{int-Carries, bool-Carries}
use dev_cadence.Wire.RoundTrip.Children.{Foreign, Travels, unknown-Carries, Carries-Travels}
use dev_cadence.Wire.Messages.Sanitization.{
  Sanitization, empty, encode, field, fields, unmarshal_at,
}

-- What a message meets to be read back as it is: numbers that fit, valid texts, lists within their caps,
-- nested messages that meet the same, and unknown bytes that are whole fields it does not know.
pub record IsEncodable (p : Protowire) (m : Sanitization) : Type 0 where
  pub redactions_fits : m.redactions < 0x1_0000_0000
  pub truncations_fits : m.truncations < 0x1_0000_0000
  pub unknown_foreign : Foreign p (fields p) m.unknown

module _ (p : Protowire) (l : Laws p) (depth : ℕ) where
  written : (m : Sanitization) → IsEncodable p m → Carries p (fields p depth) (encode p m) empty m
  unfolding encode field
  written m v =
      let m1 = record empty { redactions = m.redactions } in
      let m2 = record m1 { truncations = m.truncations } in
      let m3 = record m2 { payload_replaced = m.payload_replaced } in
      int-Carries l 1 refl 0x1_0000_0000 (λ x. record empty { redactions = x }) (omega arith)
        (omega arith) v.redactions_fits refl (λ x. refl)
      ▸ int-Carries l 2 refl 0x1_0000_0000 (λ x. record m1 { truncations = x }) (omega arith)
          (omega arith) v.truncations_fits refl (λ x. refl)
      ▸ bool-Carries l 3 refl (λ x. record m2 { payload_replaced = x }) m.payload_replaced refl
          (λ x. refl)
      ▸ unknown-Carries l depth (λ u. record m3 { unknown = u }) (λ w u. refl) m.unknown
          v.unknown_foreign

  pub encode-Travels :
      (m : Sanitization) → IsEncodable p m → Travels (encode p m) (unmarshal_at p depth) m
  unfolding unmarshal_at
  encode-Travels m v = Carries-Travels (written m v)

-- ===== src/Wire/RoundTrip/Usage.antt =====
-- internal/flightrec/wire/codec.go: the message Usage, written and read back.
use dev_cadence.Prelude.{ℕ, ◌<◌, refl, arith}
use dev_cadence.Wire.Proto.{Protowire, Laws}
use dev_cadence.Wire.RoundTrip.Carry.{Carries, ◌▸◌}
use dev_cadence.Wire.RoundTrip.Scalars.{int-Carries}
use dev_cadence.Wire.RoundTrip.Children.{Foreign, Travels, unknown-Carries, Carries-Travels}
use dev_cadence.Wire.Messages.Usage.{Usage, empty, encode, field, fields, unmarshal_at}

-- What a message meets to be read back as it is: numbers that fit, valid texts, lists within their caps,
-- nested messages that meet the same, and unknown bytes that are whole fields it does not know.
pub record IsEncodable (p : Protowire) (m : Usage) : Type 0 where
  pub input_tokens_fits : m.input_tokens < 0x1_0000_0000_0000_0000
  pub output_tokens_fits : m.output_tokens < 0x1_0000_0000_0000_0000
  pub duration_nanos_fits : m.duration_nanos < 0x1_0000_0000_0000_0000
  pub unknown_foreign : Foreign p (fields p) m.unknown

module _ (p : Protowire) (l : Laws p) (depth : ℕ) where
  written : (m : Usage) → IsEncodable p m → Carries p (fields p depth) (encode p m) empty m
  unfolding encode field
  written m v =
      let m1 = record empty { input_tokens = m.input_tokens } in
      let m2 = record m1 { output_tokens = m.output_tokens } in
      let m3 = record m2 { duration_nanos = m.duration_nanos } in
      int-Carries l 1 refl 0x1_0000_0000_0000_0000 (λ x. record empty { input_tokens = x })
        (omega arith) (omega arith) v.input_tokens_fits refl (λ x. refl)
      ▸ int-Carries l 2 refl 0x1_0000_0000_0000_0000 (λ x. record m1 { output_tokens = x })
          (omega arith) (omega arith) v.output_tokens_fits refl (λ x. refl)
      ▸ int-Carries l 3 refl 0x1_0000_0000_0000_0000 (λ x. record m2 { duration_nanos = x })
          (omega arith) (omega arith) v.duration_nanos_fits refl (λ x. refl)
      ▸ unknown-Carries l depth (λ u. record m3 { unknown = u }) (λ w u. refl) m.unknown
          v.unknown_foreign

  pub encode-Travels : (m : Usage) → IsEncodable p m → Travels (encode p m) (unmarshal_at p depth) m
  unfolding unmarshal_at
  encode-Travels m v = Carries-Travels (written m v)

-- ===== src/Wire/RoundTrip/Stamp.antt =====
-- internal/flightrec/wire/codec.go: the message Stamp, written and read back.
use dev_cadence.Prelude.{ℕ, ◌<◌, refl}
use dev_cadence.Wire.Proto.{Protowire, Laws}
use dev_cadence.Wire.RoundTrip.Carry.{Carries, ◌▸◌}
use dev_cadence.Wire.RoundTrip.Scalars.{int64-Carries}
use dev_cadence.Wire.RoundTrip.Children.{Foreign, Travels, unknown-Carries, Carries-Travels}
use dev_cadence.Wire.Messages.Stamp.{Stamp, empty, encode, field, fields, unmarshal_at}

-- What a message meets to be read back as it is: numbers that fit, valid texts, lists within their caps,
-- nested messages that meet the same, and unknown bytes that are whole fields it does not know.
pub record IsEncodable (p : Protowire) (m : Stamp) : Type 0 where
  pub wall_unix_nanos_fits : m.wall_unix_nanos < 0x1_0000_0000_0000_0000
  pub mono_nanos_fits : m.mono_nanos < 0x1_0000_0000_0000_0000
  pub unknown_foreign : Foreign p (fields p) m.unknown

module _ (p : Protowire) (l : Laws p) (depth : ℕ) where
  written : (m : Stamp) → IsEncodable p m → Carries p (fields p depth) (encode p m) empty m
  unfolding encode field
  written m v =
      let m1 = record empty { wall_unix_nanos = m.wall_unix_nanos } in
      let m2 = record m1 { mono_nanos = m.mono_nanos } in
      int64-Carries l 1 refl (λ x. record empty { wall_unix_nanos = x }) v.wall_unix_nanos_fits refl
        (λ x. refl)
      ▸ int64-Carries l 2 refl (λ x. record m1 { mono_nanos = x }) v.mono_nanos_fits refl
          (λ x. refl)
      ▸ unknown-Carries l depth (λ u. record m2 { unknown = u }) (λ w u. refl) m.unknown
          v.unknown_foreign

  pub encode-Travels : (m : Stamp) → IsEncodable p m → Travels (encode p m) (unmarshal_at p depth) m
  unfolding unmarshal_at
  encode-Travels m v = Carries-Travels (written m v)

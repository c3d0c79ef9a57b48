-- ===== src/Wire/RoundTrip/JournalHealth.antt =====
-- internal/flightrec/wire/codec.go: the message JournalHealth, written and read back.
use dev_cadence.Prelude.{ℕ, suc, ◌+◌, ◌≤◌, ◌<◌, ◌≡◌, refl, true, some, length, All, All-map, arith}
use dev_cadence.Bytes.{valid_utf8}
use dev_cadence.Wire.Proto.{Protowire, Laws}
use dev_cadence.Wire.Decoder.{max_attempts}
use dev_cadence.Wire.RoundTrip.Carry.{Carries, ◌▸◌}
use dev_cadence.Wire.RoundTrip.Scalars.{
  limit-Carries, int-Carries, int64-Carries, int32-Carries, str-Carries,
}
use dev_cadence.Wire.RoundTrip.Children.{
  Foreign, Travels, optional-Carries, list-Carries, unknown-Carries, Carries-Travels,
}
use dev_cadence.Wire.Messages.JournalHealth.{
  JournalHealth, empty, encode, field, fields, unmarshal_at,
}
use dev_cadence.Wire.Messages.Stamp
use dev_cadence.Wire.Messages.Stamp.{Stamp}
use dev_cadence.Wire.RoundTrip.Stamp as TripStamp
use dev_cadence.Wire.Messages.PathAttempt
use dev_cadence.Wire.Messages.PathAttempt.{PathAttempt}
use dev_cadence.Wire.RoundTrip.PathAttempt as TripPathAttempt

-- What a message meets to be read back as it is: numbers that fit, valid texts, lists within their caps,
-- nested messages that meet the same, and unknown bytes that are whole fields it does not know.
pub record IsEncodable (p : Protowire) (m : JournalHealth) : Type 0 where
  pub kind_fits : m.kind < 0x1_0000_0000
  pub at_fits : (c : Stamp) → m.at ≡ some c → TripStamp.IsEncodable p c
  pub dropped_count_fits : m.dropped_count < 0x1_0000_0000_0000_0000
  pub first_missing_sequence_fits : m.first_missing_sequence < 0x1_0000_0000_0000_0000
  pub last_missing_sequence_fits : m.last_missing_sequence < 0x1_0000_0000_0000_0000
  pub detail_code_utf8 : valid_utf8 m.detail_code ≡ true
  pub detail_utf8 : valid_utf8 m.detail ≡ true
  pub attempts_room : length m.attempts ≤ max_attempts
  pub attempts_fit : All (TripPathAttempt.IsEncodable p) m.attempts
  pub selected_source_utf8 : valid_utf8 m.selected_source ≡ true
  pub offset_fits : m.offset < 0x1_0000_0000_0000_0000
  pub unknown_foreign : Foreign p (fields p) m.unknown

module _ (p : Protowire) (l : Laws p) (depth : ℕ) (deep : depth + 1 ≤ 3) where
  written : (m : JournalHealth) → IsEncodable p m → Carries p (fields p depth) (encode p m) empty m
  unfolding encode field
  written m v =
      let m1 = record empty { kind = m.kind } in
      let m2 = record m1 { at = m.at } in
      let m3 = record m2 { dropped_count = m.dropped_count } in
      let m4 = record m3 { first_missing_sequence = m.first_missing_sequence } in
      let m5 = record m4 { last_missing_sequence = m.last_missing_sequence } in
      let m6 = record m5 { detail_code = m.detail_code } in
      let m7 = record m6 { detail = m.detail } in
      let m8 = record m7 { attempts = m.attempts } in
      let m9 = record m8 { selected_source = m.selected_source } in
      let m10 = record m9 { offset = m.offset } in
      int32-Carries l 1 refl (λ x. record empty { kind = x }) v.kind_fits refl (λ x. refl)
      ▸ optional-Carries l 2 refl (Stamp.unmarshal_at p) (omega arith) (λ x. record m1 { at = x })
          (Stamp.encode p) m.at (λ c e. TripStamp.encode-Travels p l (suc depth) c (v.at_fits c e))
          refl (λ x. refl)
      ▸ int-Carries l 3 refl 0x1_0000_0000_0000_0000 (λ x. record m2 { dropped_count = x })
          (omega arith) (omega arith) v.dropped_count_fits refl (λ x. refl)
      ▸ int-Carries l 4 refl 0x1_0000_0000_0000_0000 (λ x. record m3 { first_missing_sequence = x })
          (omega arith) (omega arith) v.first_missing_sequence_fits refl (λ x. refl)
      ▸ int-Carries l 5 refl 0x1_0000_0000_0000_0000 (λ x. record m4 { last_missing_sequence = x })
          (omega arith) (omega arith) v.last_missing_sequence_fits refl (λ x. refl)
      ▸ str-Carries l 6 refl (λ x. record m5 { detail_code = x }) m.detail_code v.detail_code_utf8
          refl (λ x. refl)
      ▸ str-Carries l 7 refl (λ x. record m6 { detail = x }) m.detail v.detail_utf8 refl (λ x. refl)
      ▸ limit-Carries (length m.attempts) max_attempts m7 v.attempts_room
      ▸ list-Carries l 8 refl (PathAttempt.unmarshal_at p) (omega arith)
          (λ x. record m7 { attempts = x }) (PathAttempt.encode p) m.attempts max_attempts
          v.attempts_room
          (All-map (λ c h. TripPathAttempt.encode-Travels p l (suc depth) c h) m.attempts
            v.attempts_fit)
          (λ xs x. refl)
      ▸ str-Carries l 9 refl (λ x. record m8 { selected_source = x }) m.selected_source
          v.selected_source_utf8 refl (λ x. refl)
      ▸ int64-Carries l 10 refl (λ x. record m9 { offset = x }) v.offset_fits refl (λ x. refl)
      ▸ unknown-Carries l depth (λ u. record m10 { unknown = u }) (λ w u. refl) m.unknown
          v.unknown_foreign

  pub encode-Travels :
      (m : JournalHealth) → IsEncodable p m → Travels (encode p m) (unmarshal_at p depth) m
  unfolding unmarshal_at
  encode-Travels m v = Carries-Travels (written m v)

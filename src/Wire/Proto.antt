-- ===== src/Wire/Proto.antt =====
-- google.golang.org/protobuf/encoding/protowire, which internal/flightrec/wire/codec.go calls: the
-- package is not of the repository, so it is a parameter, with what it documents as laws.
use dev_cadence.Prelude.{ℕ, ◌≤◌, ◌<◌, ◌≡◌, Option, some, ◌++◌, length}
use dev_cadence.Bytes.{Bytes}

-- `protowire.VarintType` and `protowire.BytesType`
abbrev pub varint_type : ℕ
varint_type = 0

abbrev pub bytes_type : ℕ
bytes_type = 2

-- The Append functions give what they append. A negative length of the Consume functions is `none`.
pub record Protowire : Type 0 where
  pub append_tag : ℕ → ℕ → Bytes
  pub append_varint : ℕ → Bytes
  pub append_bytes : Bytes → Bytes
  pub consume_tag : Bytes → Option (ℕ × ℕ × ℕ)
  pub consume_field_value : ℕ → ℕ → Bytes → Option ℕ
  pub consume_varint : Bytes → ℕ
  pub consume_bytes : Bytes → Bytes

-- A field number is 1 at least and below 2^29. A uint64 is below 2^64.
pub record Laws (p : Protowire) : Type 0 where
  pub tag_read :
      (n t : ℕ) (rest : Bytes)
      → 1 ≤ n
      → n < 0x2000_0000
      → t < 8
      → p.consume_tag (p.append_tag n t ++ rest) ≡ some (n, t, length (p.append_tag n t))
  pub tag_length :
      (b : Bytes) (n t k : ℕ) → p.consume_tag b ≡ some (n, t, k) → (1 ≤ k) × (k ≤ length b)
  pub varint_length :
      (n v : ℕ) (rest : Bytes)
      → v < 0x1_0000_0000_0000_0000
      → p.consume_field_value n varint_type (p.append_varint v ++ rest)
        ≡ some (length (p.append_varint v))
  pub varint_read : (v : ℕ) → v < 0x1_0000_0000_0000_0000 → p.consume_varint (p.append_varint v) ≡ v
  pub bytes_length :
      (n : ℕ) (v rest : Bytes)
      → p.consume_field_value n bytes_type (p.append_bytes v ++ rest)
        ≡ some (length (p.append_bytes v))
  pub bytes_read : (v : Bytes) → p.consume_bytes (p.append_bytes v) ≡ v

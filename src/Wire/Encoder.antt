-- ===== src/Wire/Encoder.antt =====
-- internal/flightrec/wire/codec.go: `encoder`, which appends the bytes of a message's fields.
use dev_cadence.Prelude.{
  ℕ, ◌+◌, ◌-◌, Bool, List, [], ◌∷◌, ◌++◌, is_empty, ltb, Option, none, some, if◌then◌else◌,
}
use dev_cadence.Bytes.{Bytes, ◌==◌, valid_utf8}
use dev_cadence.Wire.Proto.{Protowire, varint_type, bytes_type}

-- ErrMalformed, ErrInvalidUTF8, ErrInvalid
pub data WireError : Type 0 where
  malformed invalid_utf8 invalid : WireError

-- `err` holds what `errors.Join` has joined; no error is the empty list.
pub record Encoder : Type 0 where
  pub b : Bytes
  pub err : List WireError

-- What `encode` of a message does to its encoder.
abbrev pub Writer : Type 0
Writer = Encoder → Encoder

abbrev pub empty_encoder : Encoder
empty_encoder = record { b = []; err = [] }

-- One statement of `encode` after the other, and none.
infixl 5 ◌⨟◌
abbrev pub ◌⨟◌ : Writer → Writer → Writer
w ⨟ v = λ e. v (w e)

abbrev pub skip : Writer
skip = λ e. e

unfoldable pub unknown : Bytes → Writer
unknown u e = record e { b = e.b ++ u }

-- `e.err = errors.Join(e.err, x)`
unfoldable pub join : WireError → Writer
join x e = record e { err = e.err ++ x ∷ [] }

-- `e.limit(field, n, max)`
unfoldable pub limit : ℕ → ℕ → Writer
limit n max = if ltb max n then join WireError.invalid else skip

-- `uint64(v)` of an int32, whose sign is extended.
abbrev pub sign_extend : ℕ → ℕ
sign_extend v = if ltb v 0x8000_0000 then v else v + (0x1_0000_0000_0000_0000 - 0x1_0000_0000)

module _ (p : Protowire) where
  unfoldable pub tag : ℕ → ℕ → Writer
  tag n t = unknown (p.append_tag n t)

  unfoldable pub varint : ℕ → ℕ → Writer
  varint n v = if v == 0 then skip else tag n varint_type ⨟ unknown (p.append_varint v)

  -- An int64 is its bit pattern, so that `uint64(v)` leaves it.
  unfoldable pub int64 : ℕ → ℕ → Writer
  int64 n v = varint n v

  unfoldable pub int32 : ℕ → ℕ → Writer
  int32 n v = varint n (sign_extend v)

  unfoldable pub boolean : ℕ → Bool → Writer
  boolean n v = if v then varint n 1 else skip

  -- `present`: a bytes field, even when empty.
  unfoldable pub present : ℕ → Bytes → Writer
  present n v = tag n bytes_type ⨟ unknown (p.append_bytes v)

  unfoldable pub str : ℕ → Bytes → Writer
  str n s =
      if is_empty s then skip else if valid_utf8 s then present n s else join WireError.invalid_utf8

  unfoldable pub bytes : ℕ → Bytes → Writer
  bytes n v = if is_empty v then skip else present n v

  -- `e.msg(n, m)`, given the `encode` of `m`
  unfoldable pub msg : ℕ → Writer → Writer
  msg n m e = let sub = m empty_encoder in present n sub.b (record e { err = e.err ++ sub.err })

-- `if x != nil { … }` of a pointer
abbrev pub optional {ℓ} : {C : Type ℓ} → Option C → (C → Writer) → Writer
optional none w = skip
optional (some c) w = w c

-- `for i := range xs { e.msg(n, &xs[i]) }`
unfoldable pub each {ℓ} : {C : Type ℓ} → List C → (C → Writer) → Writer
each [] w = skip
each (c ∷ cs) w = w c ⨟ each cs w

-- `marshal`: the bytes, beside the error.
unfoldable pub marshal : Writer → Bytes × List WireError
marshal m = let e = m empty_encoder in (e.b, e.err)

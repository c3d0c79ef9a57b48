-- ===== src/Wire/Decoder.antt =====
-- internal/flightrec/wire/codec.go: `scan`, and the functions that set one field of a message.
pub mod Loop
pub mod Outcome
use dev_cadence.Prelude.{
  ℕ, zero, suc, ◌+◌, ◌%◌, Bool, true, false, not, List, [], ◌∷◌, ◌++◌, Option, none, some, length,
  leb, if◌then◌else◌,
}
use dev_cadence.Bytes.{Bytes, ◌==◌, take, drop, valid_utf8}
use dev_cadence.Wire.Proto.{Protowire, varint_type, bytes_type}
use dev_cadence.Wire.Encoder.{WireError}

-- The message, or the error that is returned in its place.
pub data Decoded (M : Type 0) : Type 0 where
  ok : M → Decoded M
  fail : WireError → Decoded M

-- What a `field` callback returns: (true, nil) with the message that it leaves, (false, nil), or the
-- error.
pub data Field (M : Type 0) : Type 0 where
  consumed : M → Field M
  unconsumed : Field M
  refused : WireError → Field M

-- `maxDepth`, `MaxLinks`, `MaxArtifacts`, `MaxAttempts`
abbrev pub max_depth : ℕ
max_depth = 3

abbrev pub max_links : ℕ
max_links = 64

abbrev pub max_artifacts : ℕ
max_artifacts = 64

abbrev pub max_attempts : ℕ
max_attempts = 64

-- How a message of type `M` is scanned: its callback on a field's number, type and value, and
-- `*unknown = append(*unknown, …)`.
pub record Fields (M : Type 0) : Type 0 where
  pub field : ℕ → ℕ → Bytes → M → Field M
  pub keep : Bytes → M → M

module _ (p : Protowire) {M : Type 0} (f : Fields M) where
  -- The rest of a round of the loop: what the callback said about the field in the first `n` bytes.
  unfoldable pub after_field : ℕ → Bytes → M → Field M → (Bytes → M → Decoded M) → Decoded M
  after_field n b m (Field.refused x) next = Decoded.fail x
  after_field n b m (Field.consumed m') next = next (drop n b) m'
  after_field n b m Field.unconsumed next = next (drop n b) (f.keep (take n b) m)

  unfoldable pub after_value :
      ℕ → ℕ → ℕ → Bytes → M → Option ℕ → (Bytes → M → Decoded M) → Decoded M
  unfolding after_field
  after_value num typ tn b m none next = Decoded.fail WireError.malformed
  after_value num typ tn b m (some vn) next =
      after_field (tn + vn) b m (f.field num typ (take vn (drop tn b)) m) next

  unfoldable pub after_tag : Bytes → M → Option (ℕ × ℕ × ℕ) → (Bytes → M → Decoded M) → Decoded M
  unfolding after_value
  after_tag b m none next = Decoded.fail WireError.malformed
  after_tag b m (some (num, typ, tn)) next =
      after_value num typ tn b m (p.consume_field_value num typ (drop tn b)) next

  -- `for len(b) > 0`, with fuel for the rounds that are left.
  unfoldable pub scan_loop : ℕ → Bytes → M → Decoded M
  unfolding after_tag
  scan_loop fuel [] m = Decoded.ok m
  scan_loop zero (x ∷ xs) m = Decoded.fail WireError.malformed
  scan_loop (suc fuel) (x ∷ xs) m =
      after_tag (x ∷ xs) m (p.consume_tag (x ∷ xs)) (λ b' m'. scan_loop fuel b' m')

  unfoldable pub scan : Bytes → M → Decoded M
  unfolding scan_loop
  scan b m = scan_loop (length b) b m

-- `lengthDelimited`
unfoldable pub length_delimited : Protowire → ℕ → Bytes → Option Bytes
length_delimited p typ v = if typ == bytes_type then some (p.consume_bytes v) else none

module _ (p : Protowire) {M : Type 0} where
  -- `setInt` at a type of `2 ^ w` values, `size`; `set` stores the number.
  unfoldable pub set_int : (size : ℕ) → (ℕ → M) → ℕ → Bytes → Field M
  set_int size set typ v =
      if typ == varint_type
      then Field.consumed (set (p.consume_varint v % size))
      else Field.unconsumed

  unfoldable pub set_bool : (Bool → M) → ℕ → Bytes → Field M
  set_bool set typ v =
      if typ == varint_type
      then Field.consumed (set (not (p.consume_varint v == 0)))
      else Field.unconsumed

  abbrev pub store_str : (Bytes → M) → Option Bytes → Field M
  store_str set none = Field.unconsumed
  store_str set (some b) =
      if valid_utf8 b then Field.consumed (set b) else Field.refused WireError.invalid_utf8

  unfoldable pub set_str : (Bytes → M) → ℕ → Bytes → Field M
  set_str set typ v = store_str set (length_delimited p typ v)

  abbrev pub store_bytes : (Bytes → M) → Option Bytes → Field M
  store_bytes set none = Field.unconsumed
  store_bytes set (some b) = Field.consumed (set b)

  unfoldable pub set_bytes : (Bytes → M) → ℕ → Bytes → Field M
  set_bytes set typ v = store_bytes set (length_delimited p typ v)

module _ (p : Protowire) {C M : Type 0} (decode : ℕ → Bytes → Decoded C) where
  abbrev pub store_child : (C → M) → Decoded C → Field M
  store_child set (Decoded.ok c) = Field.consumed (set c)
  store_child set (Decoded.fail x) = Field.refused x

  -- `decodeChild` at a message with depth `depth`; `decode` is the child's `unmarshalAt`.
  abbrev pub decode_child : (C → M) → ℕ → Option Bytes → Field M
  decode_child set depth none = Field.unconsumed
  decode_child set depth (some b) =
      if leb max_depth depth
      then Field.refused WireError.malformed
      else store_child set (decode (suc depth) b)

  unfoldable pub set_ptr : (C → M) → ℕ → Bytes → ℕ → Field M
  set_ptr set typ v depth = decode_child set depth (length_delimited p typ v)

  -- `addMsg` to the list `dst`
  abbrev pub add_child : List C → (List C → M) → ℕ → ℕ → Option Bytes → Field M
  add_child dst set cap depth none = Field.unconsumed
  add_child dst set cap depth (some b) =
      if leb cap (length dst)
      then Field.refused WireError.malformed
      else decode_child (λ x. set (dst ++ x ∷ [])) depth (some b)

  unfoldable pub add_msg : List C → (List C → M) → ℕ → ℕ → Bytes → ℕ → Field M
  add_msg dst set cap typ v depth = add_child dst set cap depth (length_delimited p typ v)

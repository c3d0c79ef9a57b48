-- ===== src/Wire/RoundTrip/Scalars.antt =====
-- internal/flightrec/wire/codec.go: the scalar fields, as the encoder writes them and `scan` sets them.
use mathlib.Core.List.{append-nil}
use dev_cadence.Prelude.{
  ℕ, ◌+◌, ◌-◌, ◌%◌, ◌≤◌, ◌<◌, ◌≡◌, refl, sym, ap, ◌∙◌, subst, Bool, true, false, [], ◌∷◌, some, inl,
  inr, leb, ltb, ◌&&◌, if◌then◌else◌, Bool-cases, arith,
}
use dev_cadence.Bytes.{Bytes, ◌==◌, valid_utf8}
use dev_cadence.Wire.Proto.{Protowire, Laws, varint_type, bytes_type}
use dev_cadence.Wire.Encoder.{Encoder, varint, int64, int32, boolean, present, str, bytes, limit}
use dev_cadence.Wire.Decoder.{
  consumed, Fields, length_delimited, set_int, set_bool, set_str, set_bytes,
}
use dev_cadence.Wire.RoundTrip.Carry.{Carries, skip-Carries, field-Carries}

-- The numbers that a field may have.
abbrev pub is_number : ℕ → Bool
is_number n = leb 1 n && ltb n 0x2000_0000

module _ {p : Protowire} {M : Type 0} {f : Fields M} where
  pub limit-Carries : (n max : ℕ) (m : M) → n ≤ max → Carries p f (limit n max) m m
  limit-Carries n max m h =
      let same : (e : Encoder) → limit n max e ≡ e = λ e. unfold limit in ground arith in
      record { written = []; writes = λ e. rw append-nil (same e); reads = λ rest. refl }

module _ {p : Protowire} (l : Laws p) where
  pub delimited : (v : Bytes) → length_delimited p bytes_type (p.append_bytes v) ≡ some v
  unfolding length_delimited
  delimited v = ap some (l.bytes_read v)

module _ {p : Protowire} {M : Type 0} {f : Fields M} (l : Laws p) (n : ℕ)
    (number : is_number n ≡ true) where
  varint-Carries :
      (v : ℕ) (m m' : M)
      → v < 0x1_0000_0000_0000_0000
      → (v ≡ 0 → m ≡ m')
      → f.field n varint_type (p.append_varint v) m ≡ consumed m'
      → Carries p f (varint p n v) m m'
  unfolding varint
  varint-Carries v m m' small zero_same same = elim (Bool-cases (v == 0)) [
    | inl z ↦
        rw z (subst (λ x. Carries p f (λ e. e) m x) (zero_same (ground arith)) (skip-Carries m))
    | inr nz ↦ rw nz (
        field-Carries l n varint_type (p.append_varint v) m m' (ground arith) (ground arith)
          (omega arith) (λ rest. l.varint_length n v rest small) same)
  ]

  -- `set` stores the number, and the message so far holds the number 0, which is not written.
  pub int-Carries :
      (size : ℕ) (set : ℕ → M) {v : ℕ} {m : M}
      → 1 ≤ size
      → size ≤ 0x1_0000_0000_0000_0000
      → v < size
      → set 0 ≡ m
      → ((x : Bytes) → f.field n varint_type x m ≡ set_int p size set varint_type x)
      → Carries p f (varint p n v) m (set v)
  int-Carries size set {v} {m} pos most small at_zero same =
      let fits : v < 0x1_0000_0000_0000_0000 = omega arith in
      let stored : p.consume_varint (p.append_varint v) % size ≡ v =
        rw (l.varint_read v fits) (grind arith) in
      varint-Carries v m (set v) fits (λ z. sym at_zero ∙ ap set (sym z))
        (same _ ∙ unfold set_int in ap (λ x. consumed (set x)) stored)

  pub int64-Carries :
      (set : ℕ → M) {v : ℕ} {m : M}
      → v < 0x1_0000_0000_0000_0000
      → set 0 ≡ m
      → ((x : Bytes)
          → f.field n varint_type x m ≡ set_int p 0x1_0000_0000_0000_0000 set varint_type x)
      → Carries p f (int64 p n v) m (set v)
  unfolding int64
  int64-Carries set = int-Carries _ set (omega arith) (omega arith)

  -- The sign of an int32 is extended, and cut off again.
  pub int32-Carries :
      (set : ℕ → M) {v : ℕ} {m : M}
      → v < 0x1_0000_0000
      → set 0 ≡ m
      → ((x : Bytes) → f.field n varint_type x m ≡ set_int p 0x1_0000_0000 set varint_type x)
      → Carries p f (int32 p n v) m (set v)
  unfolding int32
  int32-Carries set {v} {m} small at_zero same =
      let wide : ℕ =
        if ltb v 0x8000_0000 then v else v + (0x1_0000_0000_0000_0000 - 0x1_0000_0000) in
      let fits : wide < 0x1_0000_0000_0000_0000 = ground arith in
      let back : wide % 0x1_0000_0000 ≡ v = ground arith in
      let stored : p.consume_varint (p.append_varint wide) % 0x1_0000_0000 ≡ v =
        rw (l.varint_read wide fits) back in
      let at_zero' : wide ≡ 0 → v ≡ 0 = λ z. ground arith in
      varint-Carries wide m (set v) fits (λ z. sym at_zero ∙ ap set (sym (at_zero' z)))
        (same _ ∙ unfold set_int in ap (λ x. consumed (set x)) stored)

  pub bool-Carries :
      (set : Bool → M) (v : Bool) {m : M}
      → set false ≡ m
      → ((x : Bytes) → f.field n varint_type x m ≡ set_bool p set varint_type x)
      → Carries p f (boolean p n v) m (set v)
  unfolding boolean
  bool-Carries set false {m} at_false same =
      subst (λ x. Carries p f (λ e. e) m x) (sym at_false) (skip-Carries m)
  bool-Carries set true {m} at_false same =
      varint-Carries 1 m (set true) (omega arith) (λ z. absurd (omega arith))
        (same _ ∙ unfold set_bool in rw (l.varint_read 1 (omega arith)) refl)

  pub present-Carries :
      (v : Bytes) (m m' : M)
      → f.field n bytes_type (p.append_bytes v) m ≡ consumed m'
      → Carries p f (present p n v) m m'
  unfolding present
  present-Carries v m m' same =
      field-Carries l n bytes_type (p.append_bytes v) m m' (ground arith) (ground arith)
        (omega arith) (λ rest. l.bytes_length n v rest) same

  pub str-Carries :
      (set : Bytes → M) (s : Bytes) {m : M}
      → valid_utf8 s ≡ true
      → set [] ≡ m
      → ((x : Bytes) → f.field n bytes_type x m ≡ set_str p set bytes_type x)
      → Carries p f (str p n s) m (set s)
  unfolding str
  str-Carries set [] {m} valid at_nil same =
      subst (λ x. Carries p f (λ e. e) m x) (sym at_nil) (skip-Carries m)
  str-Carries set (c ∷ cs) {m} valid at_nil same =
      rw valid (present-Carries (c ∷ cs) m (set (c ∷ cs)) (same _ ∙ stored))
    where
      stored : set_str p set bytes_type (p.append_bytes (c ∷ cs)) ≡ consumed (set (c ∷ cs))
      stored = unfold set_str in rw (delimited l (c ∷ cs), valid) refl

  pub bytes-Carries :
      (set : Bytes → M) (v : Bytes) {m : M}
      → set [] ≡ m
      → ((x : Bytes) → f.field n bytes_type x m ≡ set_bytes p set bytes_type x)
      → Carries p f (bytes p n v) m (set v)
  unfolding bytes
  bytes-Carries set [] {m} at_nil same =
      subst (λ x. Carries p f (λ e. e) m x) (sym at_nil) (skip-Carries m)
  bytes-Carries set (c ∷ cs) {m} at_nil same =
      present-Carries (c ∷ cs) m (set (c ∷ cs)) (same _ ∙ stored)
    where
      stored : set_bytes p set bytes_type (p.append_bytes (c ∷ cs)) ≡ consumed (set (c ∷ cs))
      stored = unfold set_bytes in rw (delimited l (c ∷ cs)) refl

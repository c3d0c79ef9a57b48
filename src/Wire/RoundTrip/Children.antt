-- ===== src/Wire/RoundTrip/Children.antt =====
-- internal/flightrec/wire/codec.go: nested and repeated messages, and unknown fields, as the encoder
-- writes them and `scan` sets them.
use mathlib.Core.List.{append-nil, append_assoc}
use mathlib.Core.Path.{fun_ext}
use dev_cadence.Prelude.{
  ℕ, suc, ◌+◌, ◌≤◌, ◌<◌, ◌≡◌, refl, sym, ap, ◌∙◌, subst, true, List, [], ◌∷◌, ◌++◌, Option, none,
  some, length, length-append, All, arith,
}
use dev_cadence.Bytes.{Bytes, take, drop, take-append, drop-append}
use dev_cadence.Wire.Proto.{Protowire, Laws, bytes_type}
use dev_cadence.Wire.Encoder.{
  Writer, skip, empty_encoder, unknown, present, msg, optional, each, marshal,
}
use dev_cadence.Wire.Decoder.{
  Decoded, consumed, unconsumed, Fields, scan, after_field, set_ptr, add_msg, scan_loop, add_child,
  decode_child,
}
use dev_cadence.Wire.Decoder.Loop.{scan_field}
use dev_cadence.Wire.RoundTrip.Carry.{Carries, skip-Carries, ◌▸◌}
use dev_cadence.Wire.RoundTrip.Scalars.{is_number, present-Carries, delimited}

-- A whole message: `w` writes bytes with no error, and they decode to `c`.
pub record Travels {C : Type 0} (w : Writer) (decode : Bytes → Decoded C) (c : C) : Type 0 where
  pub content : Bytes
  pub encoded : w empty_encoder ≡ record { b = content; err = [] }
  pub decoded : decode content ≡ Decoded.ok c

add_child_room :
    (p : Protowire) {C M : Type 0} (decode : ℕ → Bytes → Decoded C) (d : ℕ) (set : List C → M)
    (dst : List C) (cap_of : ℕ) (o : Option Bytes)
    → length dst < cap_of
    → add_child p decode dst set cap_of d o ≡ decode_child p decode (λ x. set (dst ++ x ∷ [])) d o
add_child_room p decode d set dst cap_of none room = refl
add_child_room p decode d set dst cap_of (some b) room = ground arith

module _ {p : Protowire} {C M : Type 0} {f : Fields M} (l : Laws p) (n : ℕ)
    (number : is_number n ≡ true) (decode : ℕ → Bytes → Decoded C) {d : ℕ} (deep : d < 3) where
  ptr-Carries :
      (set : C → M) {w : Writer} {c : C} (m : M)
      → Travels w (decode (suc d)) c
      → ((x : Bytes) → f.field n bytes_type x m ≡ set_ptr p decode set bytes_type x d)
      → Carries p f (msg p n w) m (set c)
  ptr-Carries set {w} {c} m t same =
      subst (λ v. Carries p f v m (set c)) (sym message)
        (present-Carries l n number t.content m (set c) (same _ ∙ stored))
    where
      message : msg p n w ≡ present p n t.content
      message = fun_ext (λ e. unfold msg in rw (t.encoded, append-nil) refl)

      stored : set_ptr p decode set bytes_type (p.append_bytes t.content) d ≡ consumed (set c)
      stored = unfold set_ptr in rw (delimited l t.content) (ground (arith, t.decoded))

  pub optional-Carries :
      (set : Option C → M) (write : C → Writer) (o : Option C) {m : M}
      → ((c : C) → o ≡ some c → Travels (write c) (decode (suc d)) c)
      → set none ≡ m
      → ((x : Bytes)
          → f.field n bytes_type x m ≡ set_ptr p decode (λ c. set (some c)) bytes_type x d)
      → Carries p f (optional o (λ c. msg p n (write c))) m (set o)
  optional-Carries set write none {m} t at_none same =
      subst (λ x. Carries p f skip m x) (sym at_none) (skip-Carries m)
  optional-Carries set write (some c) {m} t at_none same =
      ptr-Carries (λ x. set (some x)) m (t c refl) same

  one-Carries :
      (set : List C → M) (w : Writer) (c : C) (dst : List C) (cap_of : ℕ)
      → length dst < cap_of
      → Travels w (decode (suc d)) c
      → ((x : Bytes)
          → f.field n bytes_type x (set dst) ≡ add_msg p decode dst set cap_of bytes_type x d)
      → Carries p f (msg p n w) (set dst) (set (dst ++ c ∷ []))
  one-Carries set w c dst cap_of room t same =
      ptr-Carries (λ x. set (dst ++ x ∷ [])) (set dst) t
        (λ x. same x ∙ unfold add_msg set_ptr in add_child_room p decode d set dst cap_of _ room)

  -- The messages `cs` behind those of `dst`, where the field has room for all.
  pub each-Carries :
      (set : List C → M) (write : C → Writer) (cs dst : List C) (cap_of : ℕ)
      → length dst + length cs ≤ cap_of
      → All (λ c. Travels (write c) (decode (suc d)) c) cs
      → ((xs : List C) (x : Bytes)
          → f.field n bytes_type x (set xs) ≡ add_msg p decode xs set cap_of bytes_type x d)
      → Carries p f (each cs (λ c. msg p n (write c))) (set dst) (set (dst ++ cs))
  unfolding each
  each-Carries set write [] dst cap_of room t same =
      subst (λ xs. Carries p f skip (set dst) (set xs)) (sym (append-nil dst))
        (skip-Carries (set dst))
  each-Carries set write (c ∷ cs) dst cap_of room (t, ts) same =
      one-Carries set (write c) c dst cap_of (omega arith) t (same dst)
      ▸ subst (λ xs. Carries p f (each cs (λ c. msg p n (write c))) (set (dst ++ c ∷ [])) (set xs))
          (append_assoc dst (c ∷ []) cs)
          (each-Carries set write cs (dst ++ c ∷ []) cap_of
            (omega (arith, length-append dst (c ∷ []))) ts same)

  pub list-Carries :
      (set : List C → M) (write : C → Writer) (cs : List C) (cap_of : ℕ)
      → length cs ≤ cap_of
      → All (λ c. Travels (write c) (decode (suc d)) c) cs
      → ((xs : List C) (x : Bytes)
          → f.field n bytes_type x (set xs) ≡ add_msg p decode xs set cap_of bytes_type x d)
      → Carries p f (each cs (λ c. msg p n (write c))) (set []) (set cs)
  list-Carries set write cs cap_of room = each-Carries set write cs [] cap_of (omega arith)

-- Fields that no callback of the family consumes, at any depth and whatever the message holds: what a
-- message may hold as `Unknown`.
pub data Foreign (p : Protowire) {M : Type 0} (f : ℕ → Fields M) : Bytes → Type 0 where
  nil : Foreign p f []
  cons :
      (num typ : ℕ) (v u b : Bytes)
      → 1 ≤ num
      → num < 0x2000_0000
      → typ < 8
      → ((rest : Bytes) → p.consume_field_value num typ (v ++ rest) ≡ some (length v))
      → ((depth : ℕ) (m : M) → (f depth).field num typ v m ≡ unconsumed)
      → Foreign p f u
      → b ≡ p.append_tag num typ ++ (v ++ u)
      → Foreign p f b

module _ {p : Protowire} {M : Type 0} {f : ℕ → Fields M} (l : Laws p) (depth : ℕ) (set : Bytes → M)
    (keeps : (w u : Bytes) → (f depth).keep u (set w) ≡ set (w ++ u)) where
  Foreign-reads :
      (w b rest : Bytes)
      → Foreign p f b
      → scan p (f depth) (b ++ rest) (set w) ≡ scan p (f depth) rest (set (w ++ b))
  unfolding after_field
  Foreign-reads w b rest nil = rw append-nil refl
  Foreign-reads w b rest (cons num typ v u _ lo hi ty len alien more e) =
      let t = p.append_tag num typ in
      let back : drop (length t + length v) (t ++ (v ++ (u ++ rest))) ≡ u ++ rest =
        rw (← length-append t v, ← append_assoc t v) (drop-append (t ++ v) (u ++ rest)) in
      let front : take (length t + length v) (t ++ (v ++ (u ++ rest))) ≡ t ++ v =
        rw (← length-append t v, ← append_assoc t v) (take-append (t ++ v) (u ++ rest)) in
      let round =
        scan_field p l (f depth) num typ v (u ++ rest) (set w) lo hi ty (len (u ++ rest)) in
      let kept : scan p (f depth) (t ++ (v ++ (u ++ rest))) (set w)
          ≡ scan p (f depth) (u ++ rest) (set (w ++ (t ++ v))) =
        round ∙ rw (alien depth (set w)) (rw (back, front, keeps) refl) in
      subst (λ x. scan p (f depth) (x ++ rest) (set w) ≡ scan p (f depth) rest (set (w ++ x)))
        (sym e)
        (rw (append_assoc t (v ++ u) rest, append_assoc v u rest)
          (kept
            ∙ Foreign-reads (w ++ (t ++ v)) u rest more
            ∙ ap (λ x. scan p (f depth) rest (set x))
                (append_assoc w (t ++ v) u ∙ ap (λ x. w ++ x) (append_assoc t v u))))

  -- The unknown fields come last, into a message that holds none yet.
  pub unknown-Carries :
      (u : Bytes) → Foreign p f u → Carries p (f depth) (unknown u) (set []) (set u)
  unfolding unknown
  unknown-Carries u h = record {
    written = u;
    writes = λ e. refl;
    reads = λ rest. Foreign-reads [] u rest h;
  }

-- The fields of a message, one after the other, make the message.
pub Carries-Travels :
    {p : Protowire} {M : Type 0} {f : Fields M} {w : Writer} {m m' : M}
    → Carries p f w m m'
    → Travels w (λ b. scan p f b m) m'
unfolding scan scan_loop
Carries-Travels c = record {
  content = c.written;
  encoded = c.writes empty_encoder;
  decoded = rw (append-nil c.written) at (c.reads []);
}

pub Travels-marshal :
    {C : Type 0} {w : Writer} {decode : Bytes → Decoded C} {c : C}
    → Travels w decode c
    → ((marshal w).1 ≡ []) × (decode (marshal w).0 ≡ Decoded.ok c)
unfolding marshal
Travels-marshal t = (rw t.encoded refl, rw (t.encoded) t.decoded)

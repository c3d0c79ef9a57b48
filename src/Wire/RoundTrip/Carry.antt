-- ===== src/Wire/RoundTrip/Carry.antt =====
-- internal/flightrec/wire/codec.go: a field that the encoder writes, met again by `scan`.
use mathlib.Core.List.{append-nil, append_assoc}
use dev_cadence.Prelude.{
  ℕ, ◌+◌, ◌≤◌, ◌<◌, ◌≡◌, refl, ap, ◌∙◌, [], ◌++◌, some, length, length-append,
}
use dev_cadence.Bytes.{Bytes, drop, drop-append}
use dev_cadence.Wire.Proto.{Protowire, Laws}
use dev_cadence.Wire.Encoder.{Encoder, Writer, ◌⨟◌, unknown, tag}
use dev_cadence.Wire.Decoder.{consumed, Fields, after_field, scan}
use dev_cadence.Wire.Decoder.Loop.{scan_field}

-- `w` appends bytes, with no error, and `scan` of them at `m`, whatever comes behind them, goes on
-- at `m'`.
pub record Carries (p : Protowire) {M : Type 0} (f : Fields M) (w : Writer) (m m' : M)
    : Type 0 where
  pub written : Bytes
  pub writes : (e : Encoder) → w e ≡ record e { b = e.b ++ written }
  pub reads : (rest : Bytes) → scan p f (written ++ rest) m ≡ scan p f rest m'

module _ {p : Protowire} {M : Type 0} {f : Fields M} where
  pub skip-Carries : (m : M) → Carries p f (λ e. e) m m
  skip-Carries m = record { written = []; writes = λ e. rw append-nil refl; reads = λ rest. refl }

  infixl 6 ◌▸◌
  pub ◌▸◌ :
      {v w : Writer} {m₁ m₂ m₃ : M}
      → Carries p f v m₁ m₂
      → Carries p f w m₂ m₃
      → Carries p f (v ⨟ w) m₁ m₃
  ◌▸◌ a b = record {
    written = a.written ++ b.written;
    writes = λ e. rw (a.writes e) (rw b.writes (rw append_assoc refl));
    reads = λ rest. rw append_assoc (a.reads (b.written ++ rest) ∙ b.reads rest);
  }

  -- The bytes of `tag` and a value that the callback consumes.
  pub field-Carries :
      Laws p
      → (num typ : ℕ) (v : Bytes) (m m' : M) → 1 ≤ num
      → num < 0x2000_0000
      → typ < 8
      → ((rest : Bytes) → p.consume_field_value num typ (v ++ rest) ≡ some (length v))
      → f.field num typ v m ≡ consumed m'
      → Carries p f (tag p num typ ⨟ unknown v) m m'
  unfolding tag unknown after_field
  field-Carries l num typ v m m' lo hi ty len e =
      let t = p.append_tag num typ in
      record {
        written = t ++ v;
        writes = λ enc. rw append_assoc refl;
        reads = λ rest.
            let cut : drop (length t + length v) (t ++ (v ++ rest)) ≡ rest =
              rw (← length-append t v, ← append_assoc t v rest) (drop-append (t ++ v) rest) in
            let round = scan_field p l f num typ v rest m lo hi ty (len rest) in
            rw append_assoc (round ∙ rw e (ap (λ b. scan p f b m') cut));
      }

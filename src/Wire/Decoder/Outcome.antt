-- ===== src/Wire/Decoder/Outcome.antt =====
-- internal/flightrec/wire/codec.go: what `scan` makes of bytes, told without its loop.
use dev_cadence.Prelude.{
  ℕ, zero, suc, ◌+◌, ◌≤◌, ◌<◌, ◌≡◌, ◌↔◌, refl, sym, ap, ◌∙◌, subst, [], ◌∷◌, Option, none, some,
  length, arith,
}
use dev_cadence.Bytes.{Bytes, take, drop, length-drop}
use dev_cadence.Wire.Proto.{Protowire, Laws}
use dev_cadence.Wire.Encoder.{WireError}
use dev_cadence.Wire.Decoder.{
  Decoded, Field, consumed, unconsumed, refused, Fields, after_field, after_value, after_tag, scan,
}
use dev_cadence.Wire.Decoder.Loop.{scan_lem}

module _ (p : Protowire) {M : Type 0} (f : Fields M) where
  -- The bytes start with a whole field: its number and type, and the lengths of its tag and its value.
  pub record Starts (b : Bytes) (num typ tn vn : ℕ) : Type 0 where
    pub filled : 1 ≤ length b
    pub tag : p.consume_tag b ≡ some (num, typ, tn)
    pub value : p.consume_field_value num typ (drop tn b) ≡ some vn

  -- From a message, the bytes lead to a message or to an error, field by field.
  pub data Leads : Bytes → M → Decoded M → Type 0 where
    over : {m : M} → Leads [] m (Decoded.ok m)
    no_tag :
        {b : Bytes} {m : M}
        → 1 ≤ length b
        → p.consume_tag b ≡ none
        → Leads b m (Decoded.fail WireError.malformed)
    no_value :
        {b : Bytes} {m : M} (num typ tn : ℕ)
        → 1 ≤ length b
        → p.consume_tag b ≡ some (num, typ, tn)
        → p.consume_field_value num typ (drop tn b) ≡ none
        → Leads b m (Decoded.fail WireError.malformed)
    refuses :
        {b : Bytes} {m : M} (num typ tn vn : ℕ) (x : WireError)
        → Starts b num typ tn vn
        → f.field num typ (take vn (drop tn b)) m ≡ refused x
        → Leads b m (Decoded.fail x)
    stores :
        {b : Bytes} {m : M} {r : Decoded M} (num typ tn vn : ℕ) (k : M)
        → Starts b num typ tn vn
        → f.field num typ (take vn (drop tn b)) m ≡ consumed k
        → Leads (drop (tn + vn) b) k r
        → Leads b m r
    keeps :
        {b : Bytes} {m : M} {r : Decoded M} (num typ tn vn : ℕ)
        → Starts b num typ tn vn
        → f.field num typ (take vn (drop tn b)) m ≡ unconsumed
        → Leads (drop (tn + vn) b) (f.keep (take (tn + vn) b) m) r
        → Leads b m r

module _ (p : Protowire) (l : Laws p) {M : Type 0} (f : Fields M) where
  round :
      (b : Bytes) (m : M)
      → 1 ≤ length b
      → scan p f b m ≡ after_tag p f b m (p.consume_tag b) (λ b' m'. scan p f b' m')
  round [] m h = absurd (omega arith)
  round (x ∷ xs) m h = scan_lem p l f x xs m

  -- A round at a field that is whole.
  round_at :
      (b : Bytes) (m : M) (num typ tn vn : ℕ)
      → Starts p f b num typ tn vn
      → scan p f b m
        ≡ after_field p f
            (tn + vn)
            b
            m
            (f.field num typ (take vn (drop tn b)) m)
            (λ b' m'. scan p f b' m')
  unfolding after_tag after_value
  round_at b m num typ tn vn s =
      round b m s.filled
      ∙ ap (λ o. after_tag p f b m o (λ b' m'. scan p f b' m')) s.tag
      ∙ ap (λ o. after_value p f num typ tn b m o (λ b' m'. scan p f b' m')) s.value

  Leads-scan : {b : Bytes} {m : M} {r : Decoded M} → Leads p f b m r → scan p f b m ≡ r
  unfolding after_tag after_value after_field scan
  Leads-scan over = refl
  Leads-scan (no_tag {b} {m} h t) =
      round b m h ∙ ap (λ o. after_tag p f b m o (λ b' m'. scan p f b' m')) t
  Leads-scan (no_value {b} {m} num typ tn h t v) =
      round b m h
      ∙ ap (λ o. after_tag p f b m o (λ b' m'. scan p f b' m')) t
      ∙ ap (λ o. after_value p f num typ tn b m o (λ b' m'. scan p f b' m')) v
  Leads-scan (refuses {b} {m} num typ tn vn x s e) =
      round_at b m num typ tn vn s
      ∙ ap (λ q. after_field p f (tn + vn) b m q (λ b' m'. scan p f b' m')) e
  Leads-scan (stores {b} {m} num typ tn vn k s e rest) =
      round_at b m num typ tn vn s
      ∙ ap (λ q. after_field p f (tn + vn) b m q (λ b' m'. scan p f b' m')) e
      ∙ Leads-scan rest
  Leads-scan (keeps {b} {m} num typ tn vn s e rest) =
      round_at b m num typ tn vn s
      ∙ ap (λ q. after_field p f (tn + vn) b m q (λ b' m'. scan p f b' m')) e
      ∙ Leads-scan rest

  -- Where every message leads on from the bytes behind a field, the message before it does.
  field_Leads :
      (b : Bytes) (m : M) (num typ tn vn : ℕ) (q : Field M)
      → Starts p f b num typ tn vn
      → f.field num typ (take vn (drop tn b)) m ≡ q
      → ((k : M) → (r : Decoded M) × Leads p f (drop (tn + vn) b) k r)
      → (r : Decoded M) × Leads p f b m r
  field_Leads b m num typ tn vn (refused x) s e go = (Decoded.fail x, refuses num typ tn vn x s e)
  field_Leads b m num typ tn vn (consumed k) s e go =
      let (r, rest) = go k in (r, stores num typ tn vn k s e rest)
  field_Leads b m num typ tn vn unconsumed s e go =
      let (r, rest) = go (f.keep (take (tn + vn) b) m) in (r, keeps num typ tn vn s e rest)

  value_Leads :
      (b : Bytes) (m : M) (num typ tn : ℕ) (o : Option ℕ)
      → 1 ≤ length b
      → p.consume_tag b ≡ some (num, typ, tn)
      → p.consume_field_value num typ (drop tn b) ≡ o
      → ((b' : Bytes) (k : M) → length b' < length b → (r : Decoded M) × Leads p f b' k r)
      → (r : Decoded M) × Leads p f b m r
  value_Leads b m num typ tn none h t v go =
      (Decoded.fail WireError.malformed, no_value num typ tn h t v)
  value_Leads b m num typ tn (some vn) h t v go =
      field_Leads b m num typ tn vn _ (record { filled = h; tag = t; value = v }) refl
        (λ k.
          go (drop (tn + vn) b) k
            (omega (arith, length-drop (tn + vn) b, (l.tag_length b num typ tn t).0)))

  tag_Leads :
      (b : Bytes) (m : M) (o : Option (ℕ × ℕ × ℕ))
      → 1 ≤ length b
      → p.consume_tag b ≡ o
      → ((b' : Bytes) (k : M) → length b' < length b → (r : Decoded M) × Leads p f b' k r)
      → (r : Decoded M) × Leads p f b m r
  tag_Leads b m none h t go = (Decoded.fail WireError.malformed, no_tag h t)
  tag_Leads b m (some (num, typ, tn)) h t go = value_Leads b m num typ tn _ h t refl go

  every_Leads : (n : ℕ) (b : Bytes) (m : M) → length b ≤ n → (r : Decoded M) × Leads p f b m r
  every_Leads n [] m h = (Decoded.ok m, over)
  every_Leads zero (x ∷ xs) m h = absurd (omega arith)
  every_Leads (suc n) (x ∷ xs) m h =
      tag_Leads (x ∷ xs) m _ (omega arith) refl (λ b' k lt. every_Leads n b' k (omega arith))

  -- With protowire as it is documented: `scan` gives a result, a message or an error, exactly where the
  -- bytes lead to it field by field. A field is a tag and a value; one that the callback consumes
  -- leaves the message that it makes, one that it does not know is kept with its bytes, tag included;
  -- the first error of a callback, and a tag or a value that is not whole, end the scan with that error
  -- or as malformed; and a message is the result only where no bytes are left. So the rounds that
  -- `scan` allows are enough.
  pub scan-Leads : (b : Bytes) (m : M) (r : Decoded M) → (scan p f b m ≡ r) ↔ Leads p f b m r
  scan-Leads b m r = (found, Leads-scan)
    where
      found : scan p f b m ≡ r → Leads p f b m r
      found e =
          let (q, h) = every_Leads (length b) b m (omega arith) in
          subst (Leads p f b m) (sym (Leads-scan h) ∙ e) h

-- ===== src/Wire/Decoder/Loop.antt =====
-- internal/flightrec/wire/codec.go: the loop of `scan`, round by round.
use dev_cadence.Prelude.{
  ℕ, zero, suc, ◌+◌, ◌≤◌, ◌<◌, ◌≡◌, refl, ap, ◌∙◌, [], ◌∷◌, ◌++◌, Option, none, some, length, arith,
}
use dev_cadence.Bytes.{Bytes, take, drop, take-append, drop-append, length-drop}
use dev_cadence.Wire.Proto.{Protowire, Laws}
use dev_cadence.Wire.Decoder.{
  Decoded, Field, consumed, unconsumed, refused, Fields, after_field, after_value, after_tag,
  scan_loop, scan,
}

module _ (p : Protowire) (l : Laws p) {M : Type 0} (f : Fields M) where
  after_field_ext :
      (n : ℕ) (b : Bytes) (m : M) (r : Field M) (g h : Bytes → M → Decoded M)
      → ((m' : M) → g (drop n b) m' ≡ h (drop n b) m')
      → after_field p f n b m r g ≡ after_field p f n b m r h
  unfolding after_field
  after_field_ext n b m (consumed m') g h e = e m'
  after_field_ext n b m unconsumed g h e = e (f.keep (take n b) m)
  after_field_ext n b m (refused x) g h e = refl

  after_value_ext :
      (num typ tn : ℕ) (b : Bytes) (m : M) (o : Option ℕ) (g h : Bytes → M → Decoded M)
      → 1 ≤ tn
      → 1 ≤ length b
      → ((b' : Bytes) (m' : M) → length b' < length b → g b' m' ≡ h b' m')
      → after_value p f num typ tn b m o g ≡ after_value p f num typ tn b m o h
  unfolding after_value
  after_value_ext num typ tn b m none g h pos ne e = refl
  after_value_ext num typ tn b m (some vn) g h pos ne e =
      after_field_ext (tn + vn) b m _ g h
        (λ m'. e (drop (tn + vn) b) m' (omega (arith, length-drop (tn + vn) b)))

  after_tag_ext :
      (b : Bytes) (m : M) (o : Option (ℕ × ℕ × ℕ)) (g h : Bytes → M → Decoded M)
      → p.consume_tag b ≡ o
      → 1 ≤ length b
      → ((b' : Bytes) (m' : M) → length b' < length b → g b' m' ≡ h b' m')
      → after_tag p f b m o g ≡ after_tag p f b m o h
  unfolding after_tag
  after_tag_ext b m none g h t ne e = refl
  after_tag_ext b m (some (num, typ, tn)) g h t ne e =
      after_value_ext num typ tn b m _ g h (l.tag_length b num typ tn t).0 ne e

  scan_loop-fuel :
      (n k : ℕ) (b : Bytes) (m : M)
      → length b ≤ n
      → length b ≤ k
      → scan_loop p f n b m ≡ scan_loop p f k b m
  unfolding scan_loop
  scan_loop-fuel n k [] m hn hk = refl
  scan_loop-fuel zero k (x ∷ xs) m hn hk = absurd (omega arith)
  scan_loop-fuel (suc n) zero (x ∷ xs) m hn hk = absurd (omega arith)
  scan_loop-fuel (suc n) (suc k) (x ∷ xs) m hn hk =
      after_tag_ext (x ∷ xs) m _ _ _ refl (omega arith)
        (λ b' m' lt. scan_loop-fuel n k b' m' (omega arith) (omega arith))

  pub scan_lem :
      (x : ℕ) (xs : Bytes) (m : M)
      → scan p f (x ∷ xs) m
        ≡ after_tag p f (x ∷ xs) m (p.consume_tag (x ∷ xs)) (λ b' m'. scan p f b' m')
  unfolding scan scan_loop
  scan_lem x xs m =
      after_tag_ext (x ∷ xs) m _ _ _ refl (omega arith)
        (λ b' m' lt. scan_loop-fuel (length xs) (length b') b' m' (omega arith) (omega arith))

  round_ne_nil :
      (b : Bytes) (m : M)
      → 1 ≤ length b
      → scan p f b m ≡ after_tag p f b m (p.consume_tag b) (λ b' m'. scan p f b' m')
  round_ne_nil [] m h = absurd (omega arith)
  round_ne_nil (x ∷ xs) m h = scan_lem x xs m

  -- A field that is written as a tag and a value: the round hands the value to the callback.
  pub scan_field :
      (num typ : ℕ) (v rest : Bytes) (m : M)
      → 1 ≤ num
      → num < 0x2000_0000
      → typ < 8
      → p.consume_field_value num typ (v ++ rest) ≡ some (length v)
      → scan p f (p.append_tag num typ ++ (v ++ rest)) m
        ≡ after_field p f
            (length (p.append_tag num typ) + length v)
            (p.append_tag num typ ++ (v ++ rest))
            m
            (f.field num typ v m)
            (λ b' m'. scan p f b' m')
  unfolding after_tag after_value
  scan_field num typ v rest m lo hi ty e =
      let t = p.append_tag num typ in
      let read = l.tag_read num typ (v ++ rest) lo hi ty in
      let (pos, short) = l.tag_length (t ++ (v ++ rest)) num typ (length t) read in
      let cut : take (length v) (drop (length t) (t ++ (v ++ rest))) ≡ v =
        rw drop-append (take-append v rest) in
      let value : p.consume_field_value num typ (drop (length t) (t ++ (v ++ rest)))
          ≡ some (length v) =
        rw drop-append e in
      round_ne_nil (t ++ (v ++ rest)) m (omega arith)
      ∙ ap (λ o. after_tag p f (t ++ (v ++ rest)) m o (λ b' m'. scan p f b' m')) read
      ∙ ap
          (λ o. after_value p f num typ (length t) (t ++ (v ++ rest)) m o (λ b' m'. scan p f b' m'))
          value
      ∙ ap
          (λ w.
            after_field p f (length t + length v) (t ++ (v ++ rest)) m (f.field num typ w m)
              (λ b' m'. scan p f b' m'))
          cut

-- ===== src/Wire/Tests/Protowire.antt =====
-- google.golang.org/protobuf/encoding/protowire at the wire types that the codec writes: base-128
-- varints, tags, and values behind their length.
use mathlib.Core.List.{append-nil, append_assoc}
use dev_cadence.Prelude.{
  ℕ, zero, suc, ◌+◌, ◌-◌, ◌*◌, ◌/◌, ◌%◌, ◌≤◌, ◌≡◌, refl, ap, Option, none, some, [], ◌∷◌, ◌++◌, inl,
  inr, length, length-append, ltb, leb, if◌then◌else◌, Option-cases, arith,
}
use dev_cadence.Bytes.{Bytes, ◌==◌, take, drop, take-append, drop-append}
use dev_cadence.Wire.Proto
use dev_cadence.Wire.Proto.{Laws, varint_type, bytes_type}

put_varint : ℕ → ℕ → Bytes
put_varint zero v = v ∷ []
put_varint (suc fuel) v =
    let more = (v % 128 + 128) ∷ put_varint fuel (v / 128) in if ltb v 128 then v ∷ [] else more

abbrev join_group : ℕ → Option (ℕ × ℕ) → Option (ℕ × ℕ)
join_group b none = none
join_group b (some (w, k)) = some (b - 128 + 128 * w, suc k)

-- The number and how many bytes it takes.
get_varint : Bytes → Option (ℕ × ℕ)
get_varint [] = none
get_varint (b ∷ bs) =
    let more = join_group b (get_varint bs) in if ltb b 128 then some (b, 1) else more

get_varint-put_varint :
    (n v : ℕ) (rest : Bytes)
    → v ≤ n
    → get_varint (put_varint n v ++ rest) ≡ some (v, length (put_varint n v))
unfolding put_varint get_varint
get_varint-put_varint zero v rest h = ground arith
get_varint-put_varint (suc n) v rest h =
    ground (arith, get_varint-put_varint n (v / 128) rest (omega arith))

length-get_varint : (b : Bytes) (v k : ℕ) → get_varint b ≡ some (v, k) → (1 ≤ k) × (k ≤ length b)
unfolding get_varint
length-get_varint [] v k h = cc
length-get_varint (b ∷ bs) v k h = elim (Option-cases (get_varint bs)) [
  | inl e ↦ ground arith
  | inr ((w, j), e) ↦ ground (arith, length-get_varint bs w j e)
]

abbrev split_tag : Option (ℕ × ℕ) → Option (ℕ × ℕ × ℕ)
split_tag none = none
split_tag (some (w, k)) = some (w / 8, w % 8, k)

abbrev value_end : ℕ → Option (ℕ × ℕ) → Option ℕ
value_end most none = none
value_end most (some (w, k)) = if leb (k + w) most then some (k + w) else none

abbrev second : Option (ℕ × ℕ) → Option ℕ
second none = none
second (some (w, k)) = some k

abbrev first_or_zero : Option (ℕ × ℕ) → ℕ
first_or_zero none = 0
first_or_zero (some (w, k)) = w

abbrev cut_value : Bytes → Option (ℕ × ℕ) → Bytes
cut_value b none = []
cut_value b (some (w, k)) = take w (drop k b)

unfoldable pub plain : Proto.Protowire
unfolding put_varint get_varint
plain = record {
  append_tag = λ n t. put_varint (n * 8 + t) (n * 8 + t);
  append_varint = λ v. put_varint v v;
  append_bytes = λ v. put_varint (length v) (length v) ++ v;
  consume_tag = λ b. split_tag (get_varint b);
  consume_field_value = λ n t b.
      if t == varint_type
      then second (get_varint b)
      else if t == bytes_type
      then value_end (length b) (get_varint b)
      else none;
  consume_varint = λ b. first_or_zero (get_varint b);
  consume_bytes = λ b. cut_value b (get_varint b);
}

varint_back :
    (v : ℕ) (rest : Bytes) → get_varint (put_varint v v ++ rest) ≡ some (v, length (put_varint v v))
varint_back v rest = get_varint-put_varint v v rest (omega arith)

whole_back : (v : ℕ) → get_varint (put_varint v v) ≡ some (v, length (put_varint v v))
whole_back v = rw (append-nil (put_varint v v)) at (varint_back v [])

tag_length_lem :
    (b : Bytes) (n t k : ℕ) (o : Option (ℕ × ℕ))
    → get_varint b ≡ o
    → split_tag o ≡ some (n, t, k)
    → (1 ≤ k) × (k ≤ length b)
tag_length_lem b n t k none e h = cc
tag_length_lem b n t k (some (w, j)) e h = ground (arith, length-get_varint b w j e)

bytes_end :
    (v rest : Bytes)
    → let n = put_varint (length v) (length v) in
      value_end (length ((n ++ v) ++ rest)) (get_varint ((n ++ v) ++ rest)) ≡ some (length (n ++ v))
bytes_end v rest =
    let n = put_varint (length v) (length v) in
    rw (append_assoc n v rest) (
      rw (varint_back (length v) (v ++ rest))
        (ground (arith, length-append n (v ++ rest), length-append v rest, length-append n v)))

bytes_back :
    (v : Bytes)
    → let n = put_varint (length v) (length v) in cut_value (n ++ v) (get_varint (n ++ v)) ≡ v
bytes_back v =
    let n = put_varint (length v) (length v) in
    let cut : take (length v) v ≡ v = rw (append-nil v) at (take-append v []) in
    rw (varint_back (length v) v) (rw (drop-append n v) cut)

pub plain-Laws : Laws plain
unfolding plain
plain-Laws = record {
  tag_read = λ n t rest lo hi ty. rw (varint_back (n * 8 + t) rest) (ground arith);
  tag_length = λ b n t k h. tag_length_lem b n t k (get_varint b) refl h;
  varint_length = λ n v rest small. ap second (varint_back v rest);
  varint_read = λ v small. ap first_or_zero (whole_back v);
  bytes_length = λ n v rest. bytes_end v rest;
  bytes_read = λ v. bytes_back v;
}

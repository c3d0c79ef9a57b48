-- ===== src/Journal/Crc.antt =====
-- Go's `crc32.Update` with the Castagnoli table, and `checksum` of internal/flightrec/journal/frame.go.
use Prim.Native.Nat.{bit_xor}
use dev_cadence.Prelude.{
  ℕ, ◌-◌, ◌/◌, ◌%◌, ◌≤◌, ◌<◌, ◌≡◌, refl, sym, ap, ◌∙◌, List, [], ◌∷◌, ◌++◌, if◌then◌else◌, arith,
}
use dev_cadence.Bytes.{Bytes, ◌==◌}

-- One entry of the table is eight shifts of the reversed polynomial.
shift_bit : ℕ → ℕ
shift_bit c = (if c % 2 == 1 then bit_xor (c / 2) 0x82f6_3b78 else c / 2) % 0x1_0000_0000

add_byte : ℕ → ℕ → ℕ
unfolding shift_bit
add_byte c v = shift_bit (
    shift_bit (shift_bit (shift_bit (shift_bit (shift_bit (shift_bit (shift_bit (bit_xor c v))))))))

add_bytes : ℕ → Bytes → ℕ
unfolding add_byte
add_bytes c [] = c
add_bytes c (v ∷ vs) = add_bytes (add_byte c v) vs

-- `^crc` of a uint32
abbrev flip : ℕ → ℕ
flip c = 0xffff_ffff - c

unfoldable pub update : ℕ → Bytes → ℕ
unfolding add_bytes
update crc p = flip (add_bytes (flip crc) p)

checksum_from : ℕ → List Bytes → ℕ
checksum_from sum [] = sum
checksum_from sum (p ∷ ps) = checksum_from (update sum p) ps

unfoldable pub checksum : List Bytes → ℕ
unfolding checksum_from update
checksum parts = checksum_from 0 parts

pub update_bound : (crc : ℕ) (p : Bytes) → update crc p < 0x1_0000_0000
unfolding update
update_bound crc p = omega arith

add_byte_bound : (c v : ℕ) → add_byte c v ≤ 0xffff_ffff
unfolding add_byte shift_bit
add_byte_bound c v = omega arith

add_bytes_bound : (c : ℕ) (p : Bytes) → c ≤ 0xffff_ffff → add_bytes c p ≤ 0xffff_ffff
unfolding add_bytes
add_bytes_bound c [] h = h
add_bytes_bound c (v ∷ vs) h = add_bytes_bound (add_byte c v) vs (add_byte_bound c v)

add_bytes-append : (c : ℕ) (p q : Bytes) → add_bytes c (p ++ q) ≡ add_bytes (add_bytes c p) q
unfolding add_bytes
add_bytes-append c [] q = refl
add_bytes-append c (v ∷ vs) q = add_bytes-append (add_byte c v) vs q

-- The checksum of two parts is that of the bytes one behind the other.
pub checksum_parts : (p q : Bytes) → checksum (p ∷ q ∷ []) ≡ checksum ((p ++ q) ∷ [])
unfolding checksum checksum_from update
checksum_parts p q =
    let inner : flip (flip (add_bytes (flip 0) p)) ≡ add_bytes (flip 0) p =
      omega (arith, add_bytes_bound (flip 0) p (omega arith)) in
    ap flip (ap (λ c. add_bytes c q) inner ∙ sym (add_bytes-append (flip 0) p q))

pub checksum_bound : (p : Bytes) (ps : List Bytes) → checksum (p ∷ ps) < 0x1_0000_0000
unfolding checksum
checksum_bound p ps = from 0 p ps
  where
    from : (sum : ℕ) (q : Bytes) (qs : List Bytes) → checksum_from sum (q ∷ qs) < 0x1_0000_0000
    from sum q [] = update_bound sum q
    from sum q (r ∷ qs) = from (update sum q) r qs

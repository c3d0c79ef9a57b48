-- ===== src/Bytes/Utf8.antt =====
-- Go's `utf8.Valid`, which internal/flightrec/wire/codec.go applies to every string.
use dev_cadence.Prelude.{
  ℕ, zero, suc, Bool, true, false, List, [], ◌∷◌, ◌&&◌, leb, ltb, if◌then◌else◌,
}

-- What a first byte asks for: a number of further bytes, and the range of the next of them.
record Lead : Type 0 where
  more : ℕ
  lo : ℕ
  hi : ℕ

-- A byte that starts no character asks for a byte of the empty range.
lead : ℕ → Lead
lead b =
    if ltb b 0x80
    then record { more = 0; lo = 0x80; hi = 0xbf }
    else if leb 0xc2 b && leb b 0xdf
    then record { more = 1; lo = 0x80; hi = 0xbf }
    else if leb b 0xe0 && leb 0xe0 b
    then record { more = 2; lo = 0xa0; hi = 0xbf }
    else if leb b 0xed && leb 0xed b
    then record { more = 2; lo = 0x80; hi = 0x9f }
    else if leb 0xe1 b && leb b 0xef
    then record { more = 2; lo = 0x80; hi = 0xbf }
    else if leb b 0xf0 && leb 0xf0 b
    then record { more = 3; lo = 0x90; hi = 0xbf }
    else if leb 0xf1 b && leb b 0xf3
    then record { more = 3; lo = 0x80; hi = 0xbf }
    else if leb b 0xf4 && leb 0xf4 b
    then record { more = 3; lo = 0x80; hi = 0x8f }
    else record { more = 1; lo = 1; hi = 0 }

utf8_from : ℕ → ℕ → ℕ → List ℕ → Bool
utf8_from zero lo hi [] = true
utf8_from zero lo hi (b ∷ bs) = let next = lead b in utf8_from next.more next.lo next.hi bs
utf8_from (suc more) lo hi [] = false
utf8_from (suc more) lo hi (b ∷ bs) = (leb lo b && leb b hi) && utf8_from more 0x80 0xbf bs

unfoldable pub valid_utf8 : List ℕ → Bool
unfolding utf8_from lead
valid_utf8 bs = utf8_from 0 0x80 0xbf bs

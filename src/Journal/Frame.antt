-- ===== src/Journal/Frame.antt =====
-- internal/flightrec/journal/frame.go: the limits, and the framing of headers and records.
use dev_cadence.Prelude.{ℕ, ◌+◌, ◌*◌, ◌/◌, ◌%◌, [], ◌∷◌, ◌++◌, length, ltb, ◌||◌, if◌then◌else◌}
use dev_cadence.Bytes.{Bytes, ◌==◌}
use dev_cadence.Errs.{Category, Result, ok, err}
use dev_cadence.Journal.Crc.{checksum}

abbrev pub format_version : ℕ
format_version = 1

abbrev pub max_health_bytes : ℕ
max_health_bytes = 4096

abbrev pub default_max_record_bytes : ℕ
default_max_record_bytes = 1048576

abbrev pub hard_max_record_bytes : ℕ
hard_max_record_bytes = 8388608

abbrev pub default_max_segment_bytes : ℕ
default_max_segment_bytes = 67108864

abbrev pub max_header_meta : ℕ
max_header_meta = 4096

abbrev pub frame_overhead : ℕ
frame_overhead = 12

abbrev pub header_fixed : ℕ
header_fixed = 16

abbrev pub segment_magic : Bytes
segment_magic = 0x89 ∷ 68 ∷ 67 ∷ 74 ∷ 82 ∷ 78 ∷ 76 ∷ 10 ∷ []

abbrev pub frame_sync : Bytes
frame_sync = 70 ∷ 82 ∷ 77 ∷ 49 ∷ []

pub record Limits : Type 0 where
  pub max_record_bytes : ℕ
  pub max_segment_bytes : ℕ

unfoldable pub min_segment_bytes : ℕ → ℕ
min_segment_bytes max_record =
    ((header_fixed + max_header_meta) + 4)
    + 3 * (frame_overhead + max_health_bytes)
    + (frame_overhead + max_record)

abbrev defaults : Limits → Limits
defaults l = record {
  max_record_bytes =
      if l.max_record_bytes == 0 then default_max_record_bytes else l.max_record_bytes;
  max_segment_bytes =
      if l.max_segment_bytes == 0 then default_max_segment_bytes else l.max_segment_bytes;
}

abbrev within_limits : Limits → Result Limits
within_limits l =
    if ltb l.max_record_bytes max_health_bytes || ltb hard_max_record_bytes l.max_record_bytes
    then err Category.invalid_argument
    else if ltb l.max_segment_bytes (min_segment_bytes l.max_record_bytes)
    then err Category.invalid_argument
    else ok l

unfoldable pub normalize : Limits → Result Limits
normalize l = within_limits (defaults l)

-- `binary.LittleEndian`; what is put is a uint16 or a uint32, so that it wraps.
unfoldable pub put_u16 : ℕ → Bytes
put_u16 v = v % 256 ∷ v / 256 % 256 ∷ []

unfoldable pub put_u32 : ℕ → Bytes
put_u32 v = v % 256 ∷ v / 256 % 256 ∷ v / 65536 % 256 ∷ v / 16777216 % 256 ∷ []

-- Both are called on slices that are long enough.
unfoldable pub get_u16 : Bytes → ℕ
get_u16 [] = 0
get_u16 (a ∷ []) = 0
get_u16 (a ∷ b ∷ rest) = a + 256 * b

unfoldable pub get_u32 : Bytes → ℕ
get_u32 [] = 0
get_u32 (a ∷ []) = 0
get_u32 (a ∷ b ∷ []) = 0
get_u32 (a ∷ b ∷ c ∷ []) = 0
get_u32 (a ∷ b ∷ c ∷ d ∷ rest) = (a + 256 * b) + (65536 * c + 16777216 * d)

-- The fixed part: magic, version, flags, length of the meta block.
unfoldable pub fixed_part : Bytes → Bytes
fixed_part meta = segment_magic ++ (put_u16 format_version ++ (put_u16 0 ++ put_u32 (length meta)))

unfoldable pub encode_header : Bytes → Bytes
encode_header meta = let front = fixed_part meta ++ meta in front ++ put_u32 (checksum (front ∷ []))

unfoldable pub encode_frame : Bytes → Bytes
encode_frame payload =
    let size = put_u32 (length payload) in
    frame_sync ++ (size ++ (put_u32 (checksum (size ∷ payload ∷ [])) ++ payload))

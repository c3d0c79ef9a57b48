-- ===== src/Journal/Room.antt =====
-- internal/flightrec/journal/frame.go: `Limits.Normalize`, and what fits into a segment.
use dev_cadence.Prelude.{◌+◌, ◌*◌, ◌≤◌, ◌≡◌, ◌++◌, length, length-append, arith}
use dev_cadence.Bytes.{Bytes}
use dev_cadence.Errs.{ok}
use dev_cadence.Journal.Frame.{
  Limits, normalize, min_segment_bytes, max_header_meta, max_health_bytes, hard_max_record_bytes,
  frame_overhead, encode_header, encode_frame,
}
use dev_cadence.Journal.Opening.{length-encode_header}
use dev_cadence.Journal.Prefix.{length-encode_frame}

-- Limits that `Normalize` accepts let a record have 4 KiB to 8 MiB, so that its length is a uint32, and
-- leave room in a segment: the header with the largest metadata, three health records of the largest
-- size and one record of the largest size fit into it.
pub normalize_room :
    (l m : Limits) (meta h1 h2 h3 payload : Bytes)
    → normalize l ≡ ok m
    → length meta ≤ max_header_meta
    → length h1 ≤ max_health_bytes
    → length h2 ≤ max_health_bytes
    → length h3 ≤ max_health_bytes
    → length payload ≤ m.max_record_bytes
    → (max_health_bytes ≤ m.max_record_bytes)
      × (m.max_record_bytes ≤ hard_max_record_bytes)
      × (length (
            encode_header meta
            ++ (encode_frame h1 ++ (encode_frame h2 ++ (encode_frame h3 ++ encode_frame payload))))
          ≤ m.max_segment_bytes)
unfolding normalize min_segment_bytes
normalize_room l m meta h1 h2 h3 payload e b0 b1 b2 b3 b4 =
    let frames : length (encode_frame h3 ++ encode_frame payload)
        ≤ 2 * frame_overhead + (length h3 + length payload) =
      omega (
        arith,
        length-append (encode_frame h3) (encode_frame payload),
        length-encode_frame h3,
        length-encode_frame payload,
      ) in
    let more : length (
          encode_header meta
          ++ (encode_frame h1 ++ (encode_frame h2 ++ (encode_frame h3 ++ encode_frame payload))))
        ≤ (16 + length meta + 4)
          + 4 * frame_overhead
          + ((length h1 + length h2) + (length h3 + length payload)) =
      omega (
        arith,
        frames,
        length-append (encode_header meta)
            (encode_frame h1 ++ (encode_frame h2 ++ (encode_frame h3 ++ encode_frame payload))),
        length-append (encode_frame h1)
            (encode_frame h2 ++ (encode_frame h3 ++ encode_frame payload)),
        length-append (encode_frame h2) (encode_frame h3 ++ encode_frame payload),
        length-encode_header meta,
        length-encode_frame h1,
        length-encode_frame h2,
      ) in
    ground (arith, more)

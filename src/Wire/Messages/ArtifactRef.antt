-- ===== src/Wire/Messages/ArtifactRef.antt =====
-- internal/flightrec/wire/types.go and codec.go: the message ArtifactRef.
use dev_cadence.Prelude.{ℕ, Bool, false, List, [], ◌++◌, if◌then◌else◌}
use dev_cadence.Bytes.{Bytes, ◌==◌}
use dev_cadence.Wire.Proto.{Protowire}
use dev_cadence.Wire.Encoder.{
  Encoder, Writer, WireError, ◌⨟◌, unknown, limit, varint, int64, int32, boolean, present, str,
  bytes, msg, optional, each,
}
use dev_cadence.Wire.Encoder
use dev_cadence.Wire.Decoder.{Decoded, Field, unconsumed, Fields, scan, set_int, set_bool, set_str}

pub record ArtifactRef : Type 0 where
  pub id : Bytes
  pub kind : Bytes
  pub locator : Bytes
  pub media_type : Bytes
  pub digest : Bytes
  pub size_bytes : ℕ
  pub truncated : Bool
  pub digest_verified : Bool
  pub unknown : Bytes

abbrev pub empty : ArtifactRef
empty = record {
  id = [];
  kind = [];
  locator = [];
  media_type = [];
  digest = [];
  size_bytes = 0;
  truncated = false;
  digest_verified = false;
  unknown = [];
}

unfoldable pub encode : Protowire → ArtifactRef → Writer
encode p m =
    str p 1 m.id
    ⨟ str p 2 m.kind
    ⨟ str p 3 m.locator
    ⨟ str p 4 m.media_type
    ⨟ str p 5 m.digest
    ⨟ int64 p 6 m.size_bytes
    ⨟ boolean p 7 m.truncated
    ⨟ boolean p 8 m.digest_verified
    ⨟ unknown m.unknown

-- The callback of `scan`.
unfoldable pub field : Protowire → ℕ → ℕ → ℕ → Bytes → ArtifactRef → Field ArtifactRef
field p depth num typ v m =
    if num == 1
    then set_str p (λ x. record m { id = x }) typ v
    else if num == 2
    then set_str p (λ x. record m { kind = x }) typ v
    else if num == 3
    then set_str p (λ x. record m { locator = x }) typ v
    else if num == 4
    then set_str p (λ x. record m { media_type = x }) typ v
    else if num == 5
    then set_str p (λ x. record m { digest = x }) typ v
    else if num == 6
    then set_int p 0x1_0000_0000_0000_0000 (λ x. record m { size_bytes = x }) typ v
    else if num == 7
    then set_bool p (λ x. record m { truncated = x }) typ v
    else if num == 8
    then set_bool p (λ x. record m { digest_verified = x }) typ v
    else unconsumed

abbrev pub fields : Protowire → ℕ → Fields ArtifactRef
fields p depth = record {
  field = field p depth;
  keep = λ u m. record m { unknown = m.unknown ++ u };
}

unfoldable pub unmarshal_at : Protowire → ℕ → Bytes → Decoded ArtifactRef
unmarshal_at p depth b = scan p (fields p depth) b empty

unfoldable pub unmarshal : Protowire → Bytes → Decoded ArtifactRef
unmarshal p b = unmarshal_at p 0 b

unfoldable pub marshal : Protowire → ArtifactRef → Bytes × List WireError
marshal p m = Encoder.marshal (encode p m)

-- ===== src/Wire.antt =====
-- internal/flightrec/wire: the protobuf messages of the flight recorder and their codec.
pub mod Proto
pub mod Encoder
pub mod Decoder
pub mod Messages
pub mod RoundTrip
pub mod Tests

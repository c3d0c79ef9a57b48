-- ===== src/Wire/Tests.antt =====
-- internal/flightrec/wire: runs of the codec, with protowire's own encoding of varints and lengths.
pub mod Protowire
pub mod Records

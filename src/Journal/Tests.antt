-- ===== src/Journal/Tests.antt =====
-- internal/flightrec/journal: runs of the scanner on segments in memory.
mod Samples
mod Witnesses

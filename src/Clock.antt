-- ===== src/Clock.antt =====
-- internal/inverterclock/clock.go: reading and setting the inverter's wall clock.
pub mod Codec
pub mod CodecLaws
pub mod Device
mod Tests

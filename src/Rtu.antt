-- ===== src/Rtu.antt =====
-- internal/modbus/rtu_tcp.go: Modbus RTU frames over a TCP connection.
pub mod Crc
pub mod CrcLaws
pub mod Frame
pub mod FrameLaws
pub mod Client
pub mod ClientLaws
mod Tests

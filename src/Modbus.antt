-- ===== src/Modbus.antt =====
-- internal/modbus/service.go: the connection to the inverter, access to it by blocks of registers,
-- writes of one register and polls.
pub mod Types
pub mod Connection
pub mod Holding
pub mod Service
pub mod Thresholds
pub mod Writing
pub mod Polling
pub mod Blocks
pub mod BlockLaws
mod ThresholdLaws
mod WritingLaws
mod WriteOutcomes
mod PollingLaws
mod UnreachableLaws
mod Tests
mod ServiceTests

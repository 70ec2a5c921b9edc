-- ===== src/Storm.antt =====
-- internal/stormcharge/manager.go: the managed storm charge session.
pub mod Types
pub mod World
pub mod Telemetry
pub mod Registers
pub mod Manager
pub mod Evaluate
pub mod Disk
pub mod Quiet
pub mod Session
pub mod Recovery
pub mod Steps
pub mod Start
pub mod Restart
pub mod Schedule
pub mod Sample
pub mod SampleSession
mod Tests
mod ScheduleTests

-- ===== src/Config.antt =====
-- internal/config/config.go: the settings, their validation and how the inverter is reached.
pub mod Types
pub mod Endpoint
pub mod Validate
pub mod Laws
pub mod Disk
pub mod DiskLaws
mod DiskTests
mod Tests

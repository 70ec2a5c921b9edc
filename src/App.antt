-- ===== src/App.antt =====
-- internal/app/app.go: the operations that the web interface and MQTT call, and the watchdog.
pub mod Operations
pub mod Watchdog
pub mod Guards
pub mod Steps
pub mod Reach
pub mod Frozen
pub mod Commands
mod Tests
mod CommandTests

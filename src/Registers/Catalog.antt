-- ===== src/Registers/Catalog.antt =====
-- internal/registers/catalog.go: the registers of each type of inverter.
pub mod Blank
pub mod Timed
pub mod Phases
pub mod Battery
pub mod Grid
pub mod Load
pub mod Limits
pub mod Controls
pub mod Switches
pub mod Daily
pub mod Totals
pub mod Estimates
pub mod ThreePhase
pub mod Selection
pub mod Queries
pub mod Facts
pub mod Laws
mod Tests

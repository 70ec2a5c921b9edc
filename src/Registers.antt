-- ===== src/Registers.antt =====
-- internal/registers/catalog.go: decoding registers, encoding writes and planning reads.
pub mod Types
pub mod Words
pub mod WordsLaws
pub mod Decode
pub mod Write
pub mod DecodeLaws
pub mod Plan
pub mod PlanShape
pub mod PlanSort
pub mod PlanLaws
pub mod Catalog
mod Tests

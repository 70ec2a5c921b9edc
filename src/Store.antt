-- ===== src/Store.antt =====
-- internal/state/store.go: the services' statuses, the values of the registers and the snapshot.
pub mod Types
pub mod Services
pub mod Values
pub mod Numbers
pub mod Battery
pub mod Derived
pub mod View
pub mod ValueLaws
pub mod SwitchLaws
pub mod ViewLaws
mod Tests

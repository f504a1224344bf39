-- ===== src/Tests.antt =====
-- Runs on concrete data, and the theorems at concrete inputs.
pub mod Admin
pub mod Samples
pub mod Offices
pub mod Options
pub mod Settings
pub mod Shipments
pub mod Rates
pub mod Refund
pub mod Services
pub mod Stores
pub mod Uninstalls

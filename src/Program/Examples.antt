-- ===== src/Program/Examples.antt =====
-- Runs of the program on a concrete ledger.
pub mod Ledger
pub mod Setting
pub mod Runs
pub mod Admin
pub mod Trips
pub mod Started
pub mod Payments
pub mod Histories

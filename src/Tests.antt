-- ===== src/Tests.antt =====
-- Runs of the code on small machines, where the theorems' hypotheses hold.
mod Samples
mod Accounts
pub mod Tile
pub mod Change
pub mod Provider
pub mod Device
pub mod Client
pub mod Encoding
pub mod Verifier
pub mod Store
pub mod Broker
pub mod Filter

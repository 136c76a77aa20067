-- ===== src/Tests.antt =====
-- Concrete inputs at which the conditions of the theorems hold.
pub mod Upgrade
pub mod Memory
pub mod Wire
pub mod Quiz
pub mod Identity
pub mod Rng
pub mod Reveal
pub mod Store
pub mod Namestore
pub mod Protocol
pub mod Outbox
pub mod Entry
pub mod Device
pub mod Callgate

-- ===== src/Auth.antt =====
-- apps/api/src/auth: login, refresh rotation, password reset, session revocation and the guards.
pub mod Store
pub mod Throttle
pub mod Tokens
pub mod Refresh
pub mod Sessions
pub mod Reset
pub mod Guard
pub mod OneActive
pub mod Interleaving
pub mod Successor
pub mod Steps
pub mod Invariant
pub mod Reads
pub mod Rotation
pub mod Admission
pub mod Revocation
pub mod ResetOnce
pub mod UsedLinks
pub mod UsedOnce
pub mod Delivery
pub mod Attempts
pub mod Tests

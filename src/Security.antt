-- ===== src/Security.antt =====
-- apps/api/src/security: quotas and capacity.
pub mod Capacity
pub mod Orphans
pub mod Tests

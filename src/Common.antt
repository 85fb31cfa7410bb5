-- ===== src/Common.antt =====
-- apps/api/src/common: helpers that several services share.
pub mod Email
pub mod Texts

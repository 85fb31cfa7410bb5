-- ===== src/Tickets.antt =====
-- apps/api/src/modules/tickets: the access policy and the operations on tickets.
pub mod Store
pub mod Access
pub mod Scope
pub mod BulkAccess
pub mod Operations
pub mod Merging
pub mod MergeEffect
pub mod MergeForest
pub mod MergeChains
pub mod Assignment
pub mod Tests
pub mod Recipients
pub mod AddressMap
pub mod Copies
pub mod RecipientTests

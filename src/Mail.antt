-- ===== src/Mail.antt =====
-- apps/api/src/modules/mail: the durable outbox, and who may act on it.
pub mod Store
pub mod Outbox
pub mod Delivery
pub mod Workers
pub mod Rows
pub mod Once
pub mod Updates
pub mod Failures
pub mod Claims
pub mod Requeue
pub mod Invariant
pub mod Creation
pub mod Effects
pub mod Ends
pub mod Commands
pub mod PlainText
pub mod Replay
pub mod Tests

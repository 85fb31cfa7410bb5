-- ===== src/Workflow.antt =====
-- apps/api/src/modules/workflow: the rules that act on a ticket after its events.
pub mod Matching
pub mod Chain
pub mod Agreement
pub mod Plans
pub mod Tests

-- ===== src/Sla.antt =====
-- apps/api/src/modules/sla/sla.service.ts: due dates in working time, breaches and escalation.
pub mod WorkTime
pub mod Worked
pub mod Deadline
pub mod Store
pub mod Actions
pub mod Breach
pub mod Entitled
pub mod Claims
pub mod Late
pub mod Tests

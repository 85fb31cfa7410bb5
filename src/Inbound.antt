-- ===== src/Inbound.antt =====
-- apps/api/src/modules/mail: the inbound ledger and what operators do with it.
pub mod Store
pub mod Claim
pub mod Access
pub mod Scopes
pub mod Operators
pub mod Writers
pub mod Workers
pub mod Replay
pub mod Finished
pub mod Growth
pub mod Once
pub mod Ends
pub mod Rounds
pub mod Patterns
pub mod Rules
pub mod SafePatterns
pub mod Identity
pub mod OneWinner
pub mod Routing
pub mod Winner
pub mod Tests

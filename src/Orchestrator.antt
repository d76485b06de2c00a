-- ===== src/Orchestrator.antt =====
-- nexus/app/orchestration/orchestrator.py. `Act` is the shape of a method: it returns or throws, and
-- what it logged before a throw stays logged.
pub mod Act
pub mod Seams
pub mod Base
pub mod Step
pub mod Execute
pub mod Settle
pub mod Deliver
pub mod Drive
pub mod Resume
pub mod Keeps
pub mod Invariant
pub mod Sound
pub mod Extends
pub mod Honest
pub mod Permit
pub mod Verified
pub mod Total
pub mod Enough
pub mod Completes

-- ===== src/Orchestrator/Keeps.antt =====
-- The rules for invariants of methods, and that the orchestrator's methods keep each invariant.
pub mod Step
pub mod Execute
pub mod Settle
pub mod Drive
pub mod Resume
pub use ai_system_canonical.Prelude.Keeps.{
  Keeps, Keeps-if, Keeps-gets, Keeps-throw, Keeps-pure, Keeps-finally, Keeps-catch, Keeps-bind,
  Keeps-try_else, Keeps-for_each, Keeps-option, keeps_rules,
}

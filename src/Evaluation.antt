-- ===== src/Evaluation.antt =====
-- nexus/app/services/eval: the guardrail suite, its regression gate, the offline evaluation, and canaries.
pub mod Regression
pub mod Offline
pub mod Canary
pub mod Laws

-- ===== src/Progress.antt =====
-- nexus/app/services/progress: signals, the per-step service, loop detection and measurement.
pub mod Signals
pub mod Service
pub mod Loop
pub mod Measure

-- ===== src/Boundary.antt =====
-- What crosses the system's boundary: fetches, secrets, and the injected faults of its dependencies.
pub mod Egress
pub mod Listed
pub mod Guarded
pub mod Secrets
pub mod Scrubbed
pub mod Faults

-- ===== src/Tests.antt =====
-- Concrete inputs, and the theorems applied to them.
pub mod World
pub mod Pipeline
pub mod Parts
pub mod Watch
mod Learning
mod Stores
mod Recall
mod Routing
mod Edges

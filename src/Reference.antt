-- ===== src/Reference.antt =====
-- unicycle_reference_trajectory: the runtime that gives a unicycle its reference trajectory.
pub mod Types
pub mod Build
pub mod Runtime
mod Tests

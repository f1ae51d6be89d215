-- ===== src/ResetClient.antt =====
-- The vehicle side of the Reset protocol (ugv_reset_client).
pub mod Protocol
pub mod Route
pub mod Estimators
pub mod Tracker
pub mod Executor

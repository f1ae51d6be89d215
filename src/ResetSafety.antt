-- ===== src/ResetSafety.antt =====
-- The coordinator's side of the Reset protocol (ugv_reset_safety).
pub mod Planner
pub mod Coordinator

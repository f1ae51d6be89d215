-- ===== src/Mecanum.antt =====
-- mecanum_ugv_controller: the controller of a vehicle that drives in any direction.
pub mod Types
pub mod Controller
pub mod Handlers
pub mod Turn
pub mod Modes
pub mod Events
pub mod Sessions
pub mod Exclusion
pub mod Twist
pub mod Wake
mod Tests

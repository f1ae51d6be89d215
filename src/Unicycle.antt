-- ===== src/Unicycle.antt =====
-- unicycle_ugv_controller: the controller of a vehicle that drives as a unicycle.
pub mod Config
pub mod Types
pub mod Filter
pub mod Flatness
pub mod Cache
pub mod Controller
pub mod Publish
pub mod Tick
pub mod Handlers
pub mod Operations
pub mod Turn
pub mod Events
pub mod Requests
pub mod Wake
mod Tests

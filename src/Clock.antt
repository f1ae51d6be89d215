-- ===== src/Clock.antt =====
-- The clocks of the controllers: times and durations, and what happens periodically.
pub mod Time
pub mod Gate
pub mod Cadence
mod Tests

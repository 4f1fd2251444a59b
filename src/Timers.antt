-- ===== src/Timers.antt =====
-- system/CPU/scheduling/PIT, HPET and ohMyTime: the timers and the sleeps that go by them.
pub mod Defs
pub mod Pit
mod Laws
mod Tests

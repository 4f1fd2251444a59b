-- ===== src/Rtc.antt =====
-- src/system/CPU/scheduling/RTC/rtc.cpp: the calendar of the CMOS clock.
pub mod Defs
pub mod Time
mod Tests

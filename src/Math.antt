-- ===== src/Math.antt =====
-- src/lib/math.hpp and src/lib/math.cpp: the rounding macros and the random numbers.
pub mod PowerOfTwo
pub mod Rounding
pub mod Random
mod Tests

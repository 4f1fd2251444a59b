-- ===== src/Vector.antt =====
-- src/lib/TurboVector/TurboVector.hpp: the growing array of the kernel.
pub mod Defs
pub mod Laws
pub mod Refinement
mod Tests

-- ===== src/Mouse.antt =====
-- src/drivers/devices/mouse.cpp: the packets of the PS/2 mouse as a state machine.
pub mod Defs
pub mod Laws
pub mod Packet
mod Tests

-- ===== src/Keyboard.antt =====
-- drivers/devices/keyboard: scancodes, the characters they make, and lines of input.
pub mod Keys
pub mod Tables
pub mod Defs
pub mod Line
mod Modifiers
mod Held
mod Typing
mod Enter
mod Backspace
mod Tests

-- ===== src/CString.antt =====
-- src/lib/string.cpp: the functions on strings that end with a zero byte, in a memory of bytes.
pub mod Defs
pub mod Chars
pub mod Text
pub mod Read
pub mod Copy
mod Compare
mod Tests

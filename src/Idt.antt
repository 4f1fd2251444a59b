-- ===== src/Idt.antt =====
-- src/system/CPU/IDT/idt.cpp: the table of interrupt gates, and the dispatch of interrupts.
pub mod Defs
pub mod Gates
mod Tests

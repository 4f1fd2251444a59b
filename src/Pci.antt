-- ===== src/Pci.antt =====
-- src/system/PCI: the devices on the bus, how they are found and looked up.
pub mod Defs
mod Search
mod Tests

-- ===== src/Log.antt =====
-- ccs_project/src/lib/log: text for the serial line.
pub mod Buffer
pub mod Format
pub mod Bounds
pub mod Number
pub mod Print
pub mod Devices
mod Tests

-- ===== src/Hal.antt =====
-- The hardware and OS abstraction of ccs_project/src/hal.
pub mod Mutex
pub mod Event
pub mod Drv
pub mod Rtos

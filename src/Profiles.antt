-- ===== src/Profiles.antt =====
-- The GATT profiles in ccs_project/src/module/ble/Profiles, over the vendor's services.
pub mod SimpleGatt
pub mod DevInfo
mod Tests

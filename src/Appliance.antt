-- ===== src/Appliance.antt =====
-- crates/myriadmesh-appliance: the appliance that caches messages for its paired devices.
pub mod Error
pub mod Cache
pub mod Pairing
pub mod Power
pub mod Usage
pub mod Preferences
pub mod Device
pub mod Manager

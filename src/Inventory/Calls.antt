-- ===== src/Inventory/Calls.antt =====
-- What each call of the four services leaves of the inventory.
pub mod Projects
pub mod Devices
pub mod Sensors
pub mod Channels

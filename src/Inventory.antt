-- ===== src/Inventory.antt =====
-- Projects, devices, sensors and channels: app/models and the services of the four in app/services.
pub mod Records
pub mod Payloads
pub mod Projects
pub mod Devices
pub mod Sensors
pub mod Channels
pub mod Invariant
pub mod Calls
pub mod Requests
pub mod Tests

-- ===== src/Plugins.antt =====
-- The plugins of app/plugins: the registries of analysis plugins and of protocol adapters, and the MQTT
-- adapter. The RTU adapter is in Modbus.
pub mod Registry
pub mod Catalog
pub mod Mqtt
pub mod Backlog
mod Tests

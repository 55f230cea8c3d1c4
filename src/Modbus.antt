-- ===== src/Modbus.antt =====
-- The Modbus RTU receiver: app/plugins/protocols/modbus_rtu_tcp.py and the register decoders of
-- app/plugins/protocols/modbus_tcp_adapter.py.
pub mod Crc
pub mod Frames
pub mod RoundTrip
pub mod Decoders
pub mod RtuAdapter
pub mod Responses
mod Tests

-- ===== src/Rooms.antt =====
-- The WebSocket rooms of app/ws/manager.py and the endpoint of app/ws/endpoints.py.
pub mod Server
pub mod Membership
pub mod Events
pub mod Broadcast
mod Tests

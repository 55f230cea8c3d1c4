-- ===== src/Dtu.antt =====
-- The TCP server of the data transfer units: app/dtus/server.py.
pub mod Connection
pub mod Chunks
pub mod Consumer
mod Tests

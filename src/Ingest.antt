-- ===== src/Ingest.antt =====
-- Readings on their way into the database: app/services/data_service.py and app/schemas/data.py.
pub mod Service
pub mod Latest
mod Tests

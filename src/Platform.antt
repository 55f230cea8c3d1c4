-- ===== src/Platform.antt =====
-- The one row of app/models/platform.py.
pub mod Settings
pub mod Single

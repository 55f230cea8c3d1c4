-- ===== src/Models.antt =====
-- 3D models: app/services/model_service.py, app/tasks/model_tasks.py, app/routers/models.py and
-- `convert_bytes` of scripts/model_convert.py.
pub mod Service
pub mod Convert
pub mod Task
pub mod Settling
pub mod Requests
mod Tests

-- ===== src/Projects.antt =====
-- The members of projects: `ProjectService` of app/services/project_service.py.
pub mod Members
pub mod Assignment
mod Tests

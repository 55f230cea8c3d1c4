-- ===== src/Access.antt =====
-- Who may do what: app/dependencies.py, `UserProject` of app/models/project.py and `decode_token` of
-- app/core/security.py.
pub mod Guards
pub mod Hierarchy
pub mod Identity
mod Tests

-- ===== src/Alerts.antt =====
-- Threshold alerts: app/models/alert.py, app/services/alert_service.py and app/tasks/alert_tasks.py.
pub mod Rules
pub mod Table
pub mod Service
pub mod Invariant
pub mod Keys
pub mod Trigger
pub mod Suppression
pub mod Closing
pub mod Evaluation
pub mod Windows
pub mod Task
pub mod Levels
pub mod Processing
pub mod Batch
mod Tests

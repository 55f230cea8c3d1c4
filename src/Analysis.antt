-- ===== src/Analysis.antt =====
-- Analysis tasks: app/models/analysis.py and app/services/analysis_service.py.
pub mod Jobs
pub mod Transitions
pub mod Agreement
pub mod Task
pub mod Retries
pub mod Requests
pub mod RoundTrip
pub mod Cancellation
pub mod LostCancellation
mod Tests
pub mod Plugins
pub mod Samples
pub mod Run

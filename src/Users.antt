-- ===== src/Users.antt =====
-- User accounts: app/models/user.py, app/services/user_service.py and app/services/setup_service.py.
pub mod Table
pub mod Service
pub mod Invariant
pub mod Calls
pub mod Requests
pub mod Listing
pub mod Passwords
pub mod Operator
pub mod Setup
pub mod Bootstrap
mod Tests

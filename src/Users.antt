-- ===== src/Users.antt =====
-- The users page of the administration, frontend/src/mystic_auth/users.
pub mod Access
pub mod Dialog
pub mod Filters
pub mod Selecting
pub mod Fetching
pub mod Tests

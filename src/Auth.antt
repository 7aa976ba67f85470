-- ===== src/Auth.antt =====
-- The session and the access checks of frontend/src/mystic_auth, and the route table of the app.
pub mod Store
pub mod Can
pub mod Events
pub mod Route
pub mod Interceptor
pub mod Refresh
pub mod Rotation
mod Tests

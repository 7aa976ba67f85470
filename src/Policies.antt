-- ===== src/Policies.antt =====
-- The policies area of frontend/src/mystic_auth.
pub mod Grants
pub mod Form
pub mod Bulk
pub mod Activity
pub mod Mutations
pub mod Actions
pub mod Lists
mod Tests

-- ===== src/Ui.antt =====
-- Shared parts of the pages: frontend/src/mystic_auth/ui and frontend/src/app/ui.
pub mod Selection
pub mod Pages
pub mod Password
pub mod Cooldown
pub mod Language
pub mod State
pub mod Toaster
mod Tests

-- ===== src/Resume.antt =====
-- The resume builder of frontend/src/app/resume_builder.
pub mod Editor
pub mod Document
pub mod Layout
pub mod Builder
mod Tests

-- ===== src/Resume/Layout.antt =====
-- The edits that frontend/src/app/resume_builder/ResumeBuilderPage.tsx makes to a document: each is
-- the function that the page hands to the editor store's `update`.
pub mod Visit
pub mod Moves
pub mod Columns
pub mod Blocks
pub mod Sections
pub mod Resize
pub mod Transfer
pub mod Others
pub mod Widths
pub mod Edits
pub mod Linked
pub mod Links

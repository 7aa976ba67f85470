-- ===== src/Search.antt =====
-- The command palette's search, frontend/src/mystic_auth/layout/command_palette.
pub mod Text
pub mod Occurrences
pub mod Palette
pub mod Matches
pub mod Ranking
pub mod Best
pub mod Results
pub mod Pushes
pub mod Leads
pub mod Arrows
pub mod Tests

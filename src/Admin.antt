-- ===== src/Admin.antt =====
-- The audit log and the rate limits of the administration, frontend/src/mystic_auth.
pub mod TimeRange
pub mod RateLimits
pub mod LoginTrend
pub mod Tests

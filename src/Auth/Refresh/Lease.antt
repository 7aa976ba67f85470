-- ===== src/Auth/Refresh/Lease.antt =====
-- Two tabs that take the lease.
use manifest_cv.Prelude.{nat_eq}

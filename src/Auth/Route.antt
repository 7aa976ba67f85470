-- ===== src/Auth/Route.antt =====
-- Routes: the guard of frontend/src/mystic_auth/authorization/ProtectedRoute.tsx, the table of
-- frontend/src/app/App.tsx and the sidebar's links, frontend/src/mystic_auth/layout/app_layout/navItems.ts.
pub mod Guard
pub mod Table

-- ===== src/Auth.antt =====
-- The authentication middleware.
pub mod Paths
pub mod Keys
pub mod Middleware

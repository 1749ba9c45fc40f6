-- ===== src/Accounts.antt =====
-- Accounts: registration, the current user's status, and profile setup.
pub mod Slug
pub mod UseCases
pub mod Handlers
pub mod Spec
pub mod Refinement

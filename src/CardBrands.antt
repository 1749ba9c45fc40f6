-- ===== src/CardBrands.antt =====
-- Card brands: the use cases, the HTTP handlers, and the whole path from handler to database.
pub mod UseCases
pub mod Routes
pub mod Spec
pub mod Refinement
pub mod Handlers

-- ===== src/Device.antt =====
-- The device authorization flow: use cases and HTTP handlers.
pub mod UseCases
pub mod Handlers

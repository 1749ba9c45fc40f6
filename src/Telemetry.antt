-- ===== src/Telemetry.antt =====
-- pkg/telemetry and the start-up of telemetry in cmd/api/main.go.
pub mod Options
pub mod MultiHandler
pub mod Startup
pub mod Providers
pub mod Logger
pub mod Logging

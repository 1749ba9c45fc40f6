-- ===== src/Tests.antt =====
-- The theorems at concrete inputs, on small models of the outside world.
mod Database
mod Statements
mod Server
mod UserServer
mod AccountServer
mod AccountRace
mod Catalogue
mod Shared
mod Stack
mod Router
mod Clients
mod CardBrands
mod Accounts
mod Logto
mod Auth
mod Journey
mod Settings
mod Lifecycle
mod Startup
mod Logging

-- ===== src/Tests.antt =====
-- The theorems at concrete inputs.
pub mod Fixtures
pub mod Sessions
pub mod Guards
pub mod Agents
pub mod Spaces
pub mod Connections
pub mod Sockets
pub mod Publishing
pub mod Queries
pub mod Sqlite
pub mod Registration
pub mod Report
pub mod Preflight
pub mod Notify
pub mod Exchange
pub mod Dht
pub mod Routes
pub mod NetworkApi
pub mod Config
pub mod Service
pub mod Identity

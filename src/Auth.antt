-- ===== src/Auth.antt =====
-- src/auth: allowed agents, sessions, and the middleware that guards the routes.
pub mod Types
pub mod SessionStore
pub mod Memory
pub mod Sqlite
pub mod Store
pub mod Middleware
pub mod Admin

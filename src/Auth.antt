-- ===== src/Auth.antt =====
-- Authentication: internal/application/auth_middleware.go and internal/infrastructure/auth.go.
pub mod Password
pub mod Roles
pub mod ApiKeys
pub mod Tokens
pub mod Config
pub mod Limits
pub mod Blacklist
pub mod Sessions
pub mod Requests
pub mod Middleware
pub mod Login
mod Examples

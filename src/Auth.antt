-- ===== src/Auth.antt =====
-- packages/auth: what a principal may do.
pub mod Permission
pub mod Scope
pub mod Principal
pub mod Grants
pub mod Can
pub mod Authorize
pub mod Throttle

-- ===== src/Agent.antt =====
-- The agent middleware: the tool registry, the authorization cache, calls to services, the spend guard
-- and the interceptor.
pub mod AuthorizationCache
pub mod Registry
pub mod Run
pub mod SpendGuard
pub mod Interceptor

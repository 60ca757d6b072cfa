-- ===== src/Gateway.antt =====
-- The clients of the gateway: their retries.
pub mod Retry

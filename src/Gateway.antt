-- ===== src/Gateway.antt =====
-- The gateway's limiter: internal/gateway/throttle.go.
pub mod Limits
pub mod Bucket
pub mod Throttle
mod Tests

-- ===== src/Server.antt =====
-- The process around the controller: the gRPC server (internal/driver/driver.go), the identity service
-- (internal/driver/identity.go), the health endpoints (internal/health/health.go) and the metrics
-- (internal/metrics/metrics.go).
pub mod Listener
pub mod Driver
pub mod Identity
pub mod Health
pub mod Metrics

-- ===== src/Etcd.antt =====
-- Package etcd (internal/etcd): finding a cluster's endpoints and judging its health.
pub mod Health
pub mod Tls
pub mod Discovery

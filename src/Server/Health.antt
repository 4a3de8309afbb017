-- ===== src/Server/Health.antt =====
-- `HealthChecker` (internal/health/health.go). The mutex makes every access of the flag atomic.
pub mod Readiness
use etcd_snapshot_driver.Common.{ℕ, Str, lit, Bool, true, false, Reply, value, failure}
use etcd_snapshot_driver.Host.{Host}

-- The status and the body that a handler writes.
pub record Response : Type 0 where
  pub status : ℕ
  pub body : Str

abbrev pub status_ok : ℕ
status_ok = 200

abbrev pub status_service_unavailable : ℕ
status_service_unavailable = 503

-- The checker, without its clients.
pub record HealthChecker : Type 0 where
  pub ready : Bool

abbrev pub new_health_checker : HealthChecker
new_health_checker = record { ready = false }

unfoldable pub set_ready : Bool → HealthChecker → HealthChecker
set_ready ready h = record { ready = ready }

unfoldable pub liveness : Response
liveness = record { status = status_ok; body = lit "OK" }

-- The answer once the API server has been asked.
abbrev pub api_checked : Reply Unit → Response
api_checked (failure _) = record {
  status = status_service_unavailable;
  body = lit "API server not accessible";
}
api_checked (value _) = record { status = status_ok; body = lit "Ready" }

module _ (H : Host) where
  unfoldable pub readiness : HealthChecker → H.KubeClient → H.State → Response × H.State
  readiness h client s = elim h.ready [
    | false ↦ (record { status = status_service_unavailable; body = lit "Not ready" }, s)
    | true ↦ let (reply, s') = H.list_namespaces client s in (api_checked reply, s')
  ]

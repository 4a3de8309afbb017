-- ===== src/Server/Metrics.antt =====
-- `NewMetrics` (internal/metrics/metrics.go): promauto registers each collector with the default
-- registry, and panics where the registry refuses it.
pub mod Registered
use etcd_snapshot_driver.Host.{Collector, counter_vec, gauge_vec, histogram_vec, Metric, Host}
use etcd_snapshot_driver.Common.{
  Str, lit, String, List, [], ◌∷◌, Error, Reply, value, failure, Result, ok, err, panic, Act, pure,
  panics, ◌>>=◌, ◌>>◌,
}

abbrev metric : Collector → String → List Str → Metric
metric c name labels = record { collector = c; name = lit name; labels = labels }

unfoldable pub metrics : List Metric
metrics =
    metric counter_vec "etcd_snapshot_operations_total"
      (lit "operation" ∷ lit "status" ∷ lit "cluster" ∷ [])
    ∷ metric histogram_vec "etcd_snapshot_operation_duration_seconds" (lit "operation" ∷ [])
    ∷ metric gauge_vec "etcd_snapshot_size_bytes" (lit "snapshot_id" ∷ lit "cluster" ∷ [])
    ∷ metric gauge_vec "etcd_snapshots_total" (lit "cluster" ∷ lit "status" ∷ [])
    ∷ metric counter_vec "csi_rpc_total" (lit "method" ∷ lit "status" ∷ [])
    ∷ metric histogram_vec "csi_rpc_latency_seconds" (lit "method" ∷ [])
    ∷ metric gauge_vec "csi_rpc_active" (lit "method" ∷ [])
    ∷ metric gauge_vec "etcd_snapshot_pvc_usage_bytes" (lit "pvc_name" ∷ lit "namespace" ∷ [])
    ∷ metric gauge_vec "etcd_snapshot_pvc_available_bytes" (lit "pvc_name" ∷ lit "namespace" ∷ [])
    ∷ metric counter_vec "etcd_snapshot_storage_errors_total" (lit "reason" ∷ [])
    ∷ metric gauge_vec "etcd_cluster_members" (lit "cluster" ∷ lit "state" ∷ [])
    ∷ metric gauge_vec "etcd_cluster_has_quorum" (lit "cluster" ∷ [])
    ∷ []

-- The default registry of Prometheus.
pub record Registry : Type 1 where
  pub State : Type 0
  pub register : Metric → State → Reply Unit × State

-- The one of the process.
abbrev pub default_registry : Host → Registry
default_registry H = record { State = H.State; register = H.register_metric }

module _ (R : Registry) where
  unfoldable pub must_register : Metric → Act R.State Unit
  must_register m s =
      let (reply, s') = R.register m s in
      elim reply [ value _ ↦ pure tt s' | failure e ↦ panics e.text s' ]

  unfoldable pub register_all : List Metric → Act R.State Unit
  unfolding must_register
  register_all [] = pure tt
  register_all (m ∷ ms) = must_register m >> register_all ms

  unfoldable pub new_metrics : Act R.State Unit
  unfolding register_all metrics
  new_metrics = register_all metrics

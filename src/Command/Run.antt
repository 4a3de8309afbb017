-- ===== src/Command/Run.antt =====
-- `run` (cmd/etcd-snapshot-driver/root.go).
pub mod Outcome
use etcd_snapshot_driver.Common.{
  Str, lit, true, List, [], ◌∷◌, Error, lib, Result, ok, err, panic, Act, pure, call_or, ◌>>=◌,
  ◌>>◌,
}
use etcd_snapshot_driver.Controller.Types.{Logger}
use etcd_snapshot_driver.Host.{Settings, Host}
use etcd_snapshot_driver.Command.Settings.{load_options}
use etcd_snapshot_driver.Options.{
  ControllerOption, with_snapshot_timeout, with_cluster_label_key, with_job_backoff_limit,
  with_job_active_deadline_seconds, with_etcd_image, with_busybox_image, with_etcd_tls_enabled,
  with_etcd_tls_secret_name, with_etcd_tls_secret_namespace, with_etcd_client_cert_path,
  with_etcd_client_key_path, with_etcd_ca_path, with_default_storage_class, with_snapshot_pvc_size,
  DriverOption, with_end_point, controller_config, driver_config, identity_logger,
}
use etcd_snapshot_driver.Server.Driver.{Driver, logged, run_driver}
use etcd_snapshot_driver.Server.Metrics.{default_registry, new_metrics}
use etcd_snapshot_driver.Server.Health.{HealthChecker, new_health_checker, set_ready}

-- The options of the group controller.
unfoldable pub group_options : Logger → Settings → List ControllerOption
group_options logger v =
    ControllerOption.with_logger logger
    ∷ with_cluster_label_key (v.get_string (lit "cluster-label-key"))
    ∷ with_snapshot_timeout (v.get_duration (lit "snapshot-timeout"))
    ∷ with_job_backoff_limit (v.get_int32 (lit "job-backoff-limit"))
    ∷ with_job_active_deadline_seconds (v.get_int64 (lit "job-active-deadline"))
    ∷ with_etcd_image (v.get_string (lit "etcd-image"))
    ∷ with_busybox_image (v.get_string (lit "busybox-image"))
    ∷ with_etcd_tls_enabled (v.get_bool (lit "etcd-tls-enabled"))
    ∷ with_etcd_tls_secret_name (v.get_string (lit "etcd-tls-secret-name"))
    ∷ with_etcd_tls_secret_namespace (v.get_string (lit "etcd-tls-secret-namespace"))
    ∷ with_etcd_client_cert_path (v.get_string (lit "etcd-client-cert-path"))
    ∷ with_etcd_client_key_path (v.get_string (lit "etcd-client-key-path"))
    ∷ with_etcd_ca_path (v.get_string (lit "etcd-ca-path"))
    ∷ with_default_storage_class (v.get_string (lit "default-storage-class"))
    ∷ with_snapshot_pvc_size (v.get_string (lit "snapshot-pvc-size"))
    ∷ []

-- The driver that is made, with its two servers.
unfoldable pub new_driver : Logger → Settings → Driver
unfolding group_options controller_config driver_config identity_logger
new_driver logger v = record {
  identity = identity_logger (logger ∷ []);
  group_controller = controller_config (group_options logger v);
  cfg =
      driver_config
        (DriverOption.with_logger logger ∷ with_end_point (v.get_string (lit "csi-endpoint")) ∷ []);
}

-- What comes before the servers are started: the first message is logged, and the Kubernetes client
-- and the metrics are made.
unfoldable pub prepare : (H : Host) → Logger → Act H.State Unit
prepare H logger = do
  logged logger
  cfg ← call_or H.in_cluster_config lib
  call_or (H.new_for_config cfg) lib
  new_metrics (default_registry H)

-- The checker starts out as not ready; the HTTP server shares it, and it is the second part of the
-- result. What viper answers is read as it is at each moment, since the file is watched.
unfoldable pub run :
    (H : Host) → Logger → Str → H.Viper → H.State → (Result Unit × HealthChecker) × H.State
unfolding load_options prepare new_driver
run H logger cfg_file v s =
    let (w, s₀) = load_options H cfg_file v s in
    let (prepared, s₁) = prepare H logger s₀ in
    elim prepared [
      | err e ↦ ((err e, new_health_checker), s₁)
      | panic p ↦ ((panic p, new_health_checker), s₁)
      | ok _ ↦
          let s₂ = H.start_http ((H.settings w s₁).get_string (lit "metrics-bind-address")) s₁ in
          let (r, s₃) = run_driver H (new_driver logger (H.settings w s₂)) s₂ in
          ((r, set_ready true new_health_checker), s₃)
    ]

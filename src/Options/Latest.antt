-- ===== src/Options/Latest.antt =====
-- Each setting is that of the last option that sets it.
use etcd_snapshot_driver.Common.{
  pos, false, latest, Str, Bool, Option, none, some, List, [], ◌∷◌, ℤ, ◌≡◌, ◌≢◌, refl,
}
use etcd_snapshot_driver.Controller.Types.{
  Logger, nil_logger, nop_logger, built_logger, ControllerConfig,
}
use etcd_snapshot_driver.Options.{
  ControllerOption, controller_options, controller_config, or_nop, zero_config,
}

abbrev pub timeout_of : ControllerOption → Option ℤ
timeout_of (ControllerOption.with_snapshot_timeout w) = some w
timeout_of _ = none

abbrev pub label_key_of : ControllerOption → Option Str
label_key_of (ControllerOption.with_cluster_label_key w) = some w
label_key_of _ = none

abbrev pub backoff_limit_of : ControllerOption → Option ℤ
backoff_limit_of (ControllerOption.with_job_backoff_limit w) = some w
backoff_limit_of _ = none

abbrev pub deadline_of : ControllerOption → Option ℤ
deadline_of (ControllerOption.with_job_active_deadline_seconds w) = some w
deadline_of _ = none

abbrev pub etcd_image_of : ControllerOption → Option Str
etcd_image_of (ControllerOption.with_etcd_image w) = some w
etcd_image_of _ = none

abbrev pub busybox_image_of : ControllerOption → Option Str
busybox_image_of (ControllerOption.with_busybox_image w) = some w
busybox_image_of _ = none

abbrev pub tls_enabled_of : ControllerOption → Option Bool
tls_enabled_of (ControllerOption.with_etcd_tls_enabled w) = some w
tls_enabled_of _ = none

abbrev pub secret_name_of : ControllerOption → Option Str
secret_name_of (ControllerOption.with_etcd_tls_secret_name w) = some w
secret_name_of _ = none

abbrev pub secret_namespace_of : ControllerOption → Option Str
secret_namespace_of (ControllerOption.with_etcd_tls_secret_namespace w) = some w
secret_namespace_of _ = none

abbrev pub cert_path_of : ControllerOption → Option Str
cert_path_of (ControllerOption.with_etcd_client_cert_path w) = some w
cert_path_of _ = none

abbrev pub key_path_of : ControllerOption → Option Str
key_path_of (ControllerOption.with_etcd_client_key_path w) = some w
key_path_of _ = none

abbrev pub ca_path_of : ControllerOption → Option Str
ca_path_of (ControllerOption.with_etcd_ca_path w) = some w
ca_path_of _ = none

abbrev pub storage_class_of : ControllerOption → Option Str
storage_class_of (ControllerOption.with_default_storage_class w) = some w
storage_class_of _ = none

abbrev pub pvc_size_of : ControllerOption → Option Str
pvc_size_of (ControllerOption.with_snapshot_pvc_size w) = some w
pvc_size_of _ = none

abbrev pub logger_of : ControllerOption → Option Logger
logger_of (ControllerOption.with_logger w) = some w
logger_of _ = none

-- What the options say of each setting, where `c` is what it was before.
abbrev pub latest_config : List ControllerOption → ControllerConfig → ControllerConfig
latest_config opts c = record {
  logger = latest logger_of c.logger opts;
  snapshot_timeout = latest timeout_of c.snapshot_timeout opts;
  cluster_label_key = latest label_key_of c.cluster_label_key opts;
  job_backoff_limit = latest backoff_limit_of c.job_backoff_limit opts;
  job_active_deadline_seconds = latest deadline_of c.job_active_deadline_seconds opts;
  etcd_image = latest etcd_image_of c.etcd_image opts;
  busybox_image = latest busybox_image_of c.busybox_image opts;
  etcd_tls_enabled = latest tls_enabled_of c.etcd_tls_enabled opts;
  etcd_tls_secret_name = latest secret_name_of c.etcd_tls_secret_name opts;
  etcd_tls_secret_namespace = latest secret_namespace_of c.etcd_tls_secret_namespace opts;
  etcd_client_cert_path = latest cert_path_of c.etcd_client_cert_path opts;
  etcd_client_key_path = latest key_path_of c.etcd_client_key_path opts;
  etcd_ca_path = latest ca_path_of c.etcd_ca_path opts;
  default_storage_class = latest storage_class_of c.default_storage_class opts;
  snapshot_pvc_size = latest pvc_size_of c.snapshot_pvc_size opts;
}

controller_options-latest :
    (opts : List ControllerOption) (c : ControllerConfig)
    → controller_options opts c ≡ latest_config opts c
unfolding controller_options
controller_options-latest [] c = refl
controller_options-latest (ControllerOption.with_snapshot_timeout w ∷ opts) c =
    controller_options-latest opts _
controller_options-latest (ControllerOption.with_cluster_label_key w ∷ opts) c =
    controller_options-latest opts _
controller_options-latest (ControllerOption.with_job_backoff_limit w ∷ opts) c =
    controller_options-latest opts _
controller_options-latest (ControllerOption.with_job_active_deadline_seconds w ∷ opts) c =
    controller_options-latest opts _
controller_options-latest (ControllerOption.with_etcd_image w ∷ opts) c =
    controller_options-latest opts _
controller_options-latest (ControllerOption.with_busybox_image w ∷ opts) c =
    controller_options-latest opts _
controller_options-latest (ControllerOption.with_etcd_tls_enabled w ∷ opts) c =
    controller_options-latest opts _
controller_options-latest (ControllerOption.with_etcd_tls_secret_name w ∷ opts) c =
    controller_options-latest opts _
controller_options-latest (ControllerOption.with_etcd_tls_secret_namespace w ∷ opts) c =
    controller_options-latest opts _
controller_options-latest (ControllerOption.with_etcd_client_cert_path w ∷ opts) c =
    controller_options-latest opts _
controller_options-latest (ControllerOption.with_etcd_client_key_path w ∷ opts) c =
    controller_options-latest opts _
controller_options-latest (ControllerOption.with_etcd_ca_path w ∷ opts) c =
    controller_options-latest opts _
controller_options-latest (ControllerOption.with_default_storage_class w ∷ opts) c =
    controller_options-latest opts _
controller_options-latest (ControllerOption.with_snapshot_pvc_size w ∷ opts) c =
    controller_options-latest opts _
controller_options-latest (ControllerOption.with_logger w ∷ opts) c =
    controller_options-latest opts _

-- Nothing is set: no logger, no time, no text, and no TLS.
abbrev pub unset : ControllerConfig
unset = record {
  logger = nil_logger;
  snapshot_timeout = pos 0;
  cluster_label_key = [];
  job_backoff_limit = pos 0;
  job_active_deadline_seconds = pos 0;
  etcd_image = [];
  busybox_image = [];
  etcd_tls_enabled = false;
  etcd_tls_secret_name = [];
  etcd_tls_secret_namespace = [];
  etcd_client_cert_path = [];
  etcd_client_key_path = [];
  etcd_ca_path = [];
  default_storage_class = [];
  snapshot_pvc_size = [];
}

-- A logger that was given stays, and a nil logger gives way to one that drops everything.
abbrev pub InUse : Logger → Logger → Type 0
InUse given used = (given ≢ nil_logger → used ≡ given) × (given ≡ nil_logger → used ≡ nop_logger)

or_nop-InUse : (l : Logger) → InUse l (or_nop l)
unfolding or_nop
or_nop-InUse nil_logger = (λ h. absurd (h refl), λ e. refl)
or_nop-InUse nop_logger = (λ h. refl, λ e. cc)
or_nop-InUse built_logger = (λ h. refl, λ e. cc)

-- The configuration that the options make: each of the fifteen settings is that of the last option
-- that sets it, or its zero value where none does, in whatever order the options come; only a nil logger
-- is replaced, by one that drops everything.
pub controller_config-latest :
    (opts : List ControllerOption)
    → let c = latest_config opts unset in
      let made = controller_config opts in
      (made ≡ record c { logger = made.logger }) × InUse c.logger made.logger
unfolding controller_config
controller_config-latest opts =
    rw (controller_options-latest opts zero_config)
      (refl, or_nop-InUse (latest_config opts unset).logger)

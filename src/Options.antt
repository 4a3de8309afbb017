-- ===== src/Options.antt =====
-- Functional options (internal/driver/options.go), and the loops that apply them
-- (internal/driver/controller.go, driver.go and identity.go).
pub mod Latest
use etcd_snapshot_driver.Common.{Str, Bool, false, List, [], ◌∷◌, ℤ, pos}
use etcd_snapshot_driver.Controller.Types.{
  Logger, nil_logger, nop_logger, built_logger, ControllerConfig,
}

-- The types that implement `ControllerOption`.
pub data ControllerOption : Type 0 where
  with_snapshot_timeout : ℤ → ControllerOption
  with_cluster_label_key : Str → ControllerOption
  with_job_backoff_limit : ℤ → ControllerOption
  with_job_active_deadline_seconds : ℤ → ControllerOption
  with_etcd_image : Str → ControllerOption
  with_busybox_image : Str → ControllerOption
  with_etcd_tls_enabled : Bool → ControllerOption
  with_etcd_tls_secret_name : Str → ControllerOption
  with_etcd_tls_secret_namespace : Str → ControllerOption
  with_etcd_client_cert_path : Str → ControllerOption
  with_etcd_client_key_path : Str → ControllerOption
  with_etcd_ca_path : Str → ControllerOption
  with_default_storage_class : Str → ControllerOption
  with_snapshot_pvc_size : Str → ControllerOption
  with_logger : Logger → ControllerOption

-- `ConfigureController` of each.
unfoldable pub configure_controller : ControllerOption → ControllerConfig → ControllerConfig
configure_controller (with_snapshot_timeout w) c = record c { snapshot_timeout = w }
configure_controller (with_cluster_label_key w) c = record c { cluster_label_key = w }
configure_controller (with_job_backoff_limit w) c = record c { job_backoff_limit = w }
configure_controller (with_job_active_deadline_seconds w) c = record c {
  job_active_deadline_seconds = w;
}
configure_controller (with_etcd_image w) c = record c { etcd_image = w }
configure_controller (with_busybox_image w) c = record c { busybox_image = w }
configure_controller (with_etcd_tls_enabled w) c = record c { etcd_tls_enabled = w }
configure_controller (with_etcd_tls_secret_name w) c = record c { etcd_tls_secret_name = w }
configure_controller (with_etcd_tls_secret_namespace w) c = record c {
  etcd_tls_secret_namespace = w;
}
configure_controller (with_etcd_client_cert_path w) c = record c { etcd_client_cert_path = w }
configure_controller (with_etcd_client_key_path w) c = record c { etcd_client_key_path = w }
configure_controller (with_etcd_ca_path w) c = record c { etcd_ca_path = w }
configure_controller (with_default_storage_class w) c = record c { default_storage_class = w }
configure_controller (with_snapshot_pvc_size w) c = record c { snapshot_pvc_size = w }
configure_controller (with_logger w) c = record c { logger = w }

-- `ControllerConfig.Options`
unfoldable pub controller_options : List ControllerOption → ControllerConfig → ControllerConfig
unfolding configure_controller
controller_options [] c = c
controller_options (opt ∷ opts) c = controller_options opts (configure_controller opt c)

-- `Default`: a nil logger is replaced.
unfoldable pub or_nop : Logger → Logger
or_nop nil_logger = nop_logger
or_nop nop_logger = nop_logger
or_nop built_logger = built_logger

-- `var cfg ControllerConfig`
abbrev pub zero_config : ControllerConfig
zero_config = record {
  logger = nil_logger;
  snapshot_timeout = pos 0;
  cluster_label_key = [];
  job_backoff_limit = pos 0;
  job_active_deadline_seconds = pos 0;
  etcd_image = [];
  busybox_image = [];
  etcd_tls_enabled = false;
  etcd_tls_secret_name = [];
  etcd_tls_secret_namespace = [];
  etcd_client_cert_path = [];
  etcd_client_key_path = [];
  etcd_ca_path = [];
  default_storage_class = [];
  snapshot_pvc_size = [];
}

-- The configuration that `NewGroupControllerServer` makes.
unfoldable pub controller_config : List ControllerOption → ControllerConfig
unfolding controller_options or_nop
controller_config opts =
    let cfg = controller_options opts zero_config in record cfg { logger = or_nop cfg.logger }

-- `DriverConfig` and its options. `NewDriver` does not call `Default`.
pub record DriverConfig : Type 0 where
  pub end_point : Str
  pub logger : Logger

pub data DriverOption : Type 0 where
  with_logger : Logger → DriverOption
  with_end_point : Str → DriverOption

unfoldable pub configure_driver : DriverOption → DriverConfig → DriverConfig
configure_driver (with_logger w) c = record c { logger = w }
configure_driver (with_end_point w) c = record c { end_point = w }

unfoldable pub driver_options : List DriverOption → DriverConfig → DriverConfig
unfolding configure_driver
driver_options [] c = c
driver_options (opt ∷ opts) c = driver_options opts (configure_driver opt c)

unfoldable pub driver_config : List DriverOption → DriverConfig
unfolding driver_options
driver_config opts = driver_options opts (record { end_point = []; logger = nil_logger })

-- `IdentityServerConfig` holds a logger, and `WithLogger` is its one option.
unfoldable pub identity_options : List Logger → Logger → Logger
identity_options [] l = l
identity_options (w ∷ ws) l = identity_options ws w

-- The logger of the server that `NewIdentityServer` makes.
unfoldable pub identity_logger : List Logger → Logger
unfolding identity_options or_nop
identity_logger opts = or_nop (identity_options opts nil_logger)

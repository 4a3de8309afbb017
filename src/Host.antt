-- ===== src/Host.antt =====
-- What the process around the driver calls and does not implement: files and sockets, gRPC, zap, the
-- in-cluster configuration, and the flags that cobra and viper read.
use etcd_snapshot_driver.Common.{Str, Bool, List, ℤ, Reply}
use etcd_snapshot_driver.Controller.Types.{Logger, ControllerConfig}
use etcd_snapshot_driver.Command.Flags.{Flag}

-- The services that are registered with the gRPC server.
pub data Service : Type 0 where
  identity_service : Logger → Service
  group_controller_service : ControllerConfig → Service

-- `zap.DebugLevel` and so on
pub data Level : Type 0 where
  debug_level info_level warn_level error_level : Level

-- The fields of `zap.Config` that the driver sets, on top of one of two presets.
pub record ZapConfig : Type 0 where
  pub is_development : Bool
  pub level : Level
  pub output_paths : List Str
  pub error_output_paths : List Str

-- What the getters of a `viper.Viper` answer at one moment.
pub record Settings : Type 0 where
  pub get_string : Str → Str
  pub get_duration : Str → ℤ  -- nanoseconds
  pub get_int32 : Str → ℤ
  pub get_int64 : Str → ℤ
  pub get_bool : Str → Bool

pub data Collector : Type 0 where
  counter_vec gauge_vec histogram_vec : Collector

-- The name and the labels of a collector; help texts and buckets are left out.
pub record Metric : Type 0 where
  pub collector : Collector
  pub name : Str
  pub labels : List Str

-- What cobra makes of the command line: the root command, with the value of the flag `config`; the
-- command `version`; or what cobra answers itself, such as a request for help.
pub data Invocation : Type 0 where
  root_invoked : Str → Invocation
  version_invoked answered : Invocation

pub record Host : Type 1 where
  pub State : Type 0
  -- github.com/spf13/viper: `New` and `BindPFlags` on the flags; the calls that change a `viper.Viper`
  -- give the changed one; and what it answers then
  pub Viper : Type 0
  pub bind_flags : List Flag → State → Reply Viper × State
  pub set_config_type : Str → Viper → Viper
  pub set_config_file : Str → Viper → Viper
  pub set_env_key_replacer : Str → Str → Viper → Viper
  pub automatic_env : Viper → Viper
  pub read_in_config : Viper → State → (Reply Unit × Viper) × State
  pub watch_config : Viper → State → Viper × State
  pub settings : Viper → State → Settings
  -- github.com/spf13/cobra: the parsing of the command line, for the persistent flag and the others
  pub parse_command_line : Flag → List Flag → State → Reply Invocation × State
  -- fmt.Printf, and fmt.Fprintf on os.Stderr
  pub print : Str → State → State
  pub print_error : Str → State → State
  -- os.Remove, where `is_not_found` stands for os.IsNotExist, and os.MkdirAll with mode 0755
  pub remove_file : Str → State → Reply Unit × State
  pub mkdir_all : Str → State → Reply Unit × State
  -- net.Listen("unix", address), and the listener's Close
  pub Listener : Type 0
  pub listen_unix : Str → State → Reply Listener × State
  pub close_listener : Listener → State → State
  -- grpc: NewServer, the two Register functions, `go Serve`, GracefulStop
  pub Server : Type 0
  pub new_server : State → Server × State
  pub register : Server → Service → State → State
  pub start_serving : Server → Listener → State → State
  pub graceful_stop : Server → State → State
  -- the `select` over the context and the signals
  pub wait_for_shutdown : State → State
  -- k8s.io/client-go
  pub RestConfig : Type 0
  pub KubeClient : Type 0
  pub in_cluster_config : State → Reply RestConfig × State
  pub new_for_config : RestConfig → State → Reply KubeClient × State
  pub list_namespaces : KubeClient → State → Reply Unit × State
  -- `go http.ListenAndServe` on an address
  pub start_http : Str → State → State
  -- zap.Config.Build
  pub build_logger : ZapConfig → State → Reply Unit × State
  -- the Register function of the default registry of Prometheus
  pub register_metric : Metric → State → Reply Unit × State

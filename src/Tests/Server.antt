-- ===== src/Tests/Server.antt =====
-- Examples for the server and the endpoints around it.
use etcd_snapshot_driver.Common.{
  is_value, Str, lit, str_eq, Bool, true, false, if◌then◌else◌, ◌||◌, ◌&&◌, Option, some, List, [],
  ◌∷◌, ◌++◌, ℤ, pos, Reply, value, failure, ok, is_panic, ◌≡◌, ◌↔◌, refl, latest, arith,
}
use etcd_snapshot_driver.Volume.Split.{IsSlashFree}
use etcd_snapshot_driver.Host.{Host, Settings, root_invoked, Metric}
use etcd_snapshot_driver.Options.{
  ControllerOption, with_etcd_image, with_snapshot_timeout, controller_config,
}
use etcd_snapshot_driver.Options.Latest.{latest_config, InUse, unset, controller_config-latest}
use etcd_snapshot_driver.Server.Listener.{unix_scheme, setup_listener}
use etcd_snapshot_driver.Server.Listener.Endpoint.{setup_listener-panic_iff}
use etcd_snapshot_driver.Server.Health.{status_ok, new_health_checker, readiness}
use etcd_snapshot_driver.Server.Health.Readiness.{
  marked, asked_readiness, mark_of, replay, readiness_iff,
}
use etcd_snapshot_driver.Server.Metrics.{default_registry, metrics, new_metrics}
use etcd_snapshot_driver.Server.Metrics.Registered.{RegistryLaws, AllFree, new_metrics_once}
use etcd_snapshot_driver.Command.Flags.{
  Flag, Default, string_flag, duration_flag, int32_flag, int64_flag, bool_flag, flags,
}
use etcd_snapshot_driver.Command.Logging.Given.{default_of}

-- What viper answers where every flag has its default; the environment, once it is read, asks for
-- another log level.
abbrev as_string : Option Default → Str
as_string (some (string_flag d)) = d
as_string _ = []

abbrev as_duration : Option Default → ℤ
as_duration (some (duration_flag d)) = d
as_duration _ = pos 0

abbrev as_int32 : Option Default → ℤ
as_int32 (some (int32_flag d)) = d
as_int32 _ = pos 0

abbrev as_int64 : Option Default → ℤ
as_int64 (some (int64_flag d)) = d
as_int64 _ = pos 0

abbrev as_bool : Option Default → Bool
as_bool (some (bool_flag d)) = d
as_bool _ = false

abbrev shown : List Flag × Bool → Settings
shown (fs, told) = record {
  get_string =
      λ n. if told && str_eq n (lit "log-level") then lit "debug" else as_string (default_of n fs);
  get_duration = λ n. as_duration (default_of n fs);
  get_int32 = λ n. as_int32 (default_of n fs);
  get_int64 = λ n. as_int64 (default_of n fs);
  get_bool = λ n. as_bool (default_of n fs);
}

abbrev pub viper : Settings
viper = shown (flags, false)

-- A host that remembers the names of the registered metrics, whose files and sockets work.
unfoldable pub has_name : Str → List Str → Bool
has_name n [] = false
has_name n (m ∷ ms) = str_eq m n || has_name n ms

unfoldable pub add_metric : Metric → List Str → Reply Unit × List Str
unfolding has_name
add_metric m s =
    if has_name m.name s
    then (
      failure (record { text = lit "duplicate"; is_not_found = false; is_already_exists = true }),
      s,
    )
    else (value tt, m.name ∷ s)

abbrev pub host : Host
host = record {
  State = List Str;
  Viper = List Flag × Bool;
  bind_flags = λ fs s. (value (fs, false), s);
  set_config_type = λ x v. v;
  set_config_file = λ x v. v;
  set_env_key_replacer = λ x y v. v;
  automatic_env = λ v. (v.0, true);
  read_in_config = λ v s. (
    (failure (record { text = lit "missing"; is_not_found = true; is_already_exists = false }), v),
    s,
  );
  watch_config = λ v s. (v, s);
  settings = λ v s. shown v;
  parse_command_line = λ f fs s. (value (root_invoked (lit ".etcd-snapshot-driver.yaml")), s);
  print = λ x s. s;
  print_error = λ x s. s;
  remove_file = λ p s. (value tt, s);
  mkdir_all = λ p s. (value tt, s);
  Listener = Str;
  listen_unix = λ a s. (value a, s);
  close_listener = λ l s. s;
  Server = Unit;
  new_server = λ s. (tt, s);
  register = λ g x s. s;
  start_serving = λ g l s. s;
  graceful_stop = λ g s. s;
  wait_for_shutdown = λ s. s;
  RestConfig = Unit;
  KubeClient = Unit;
  in_cluster_config = λ s. (value tt, s);
  new_for_config = λ c s. (value tt, s);
  list_namespaces = λ c s. (value tt, s);
  start_http = λ a s. s;
  build_logger = λ c s. (value tt, s);
  register_metric = add_metric;
}

host_laws : RegistryLaws (default_registry host)
unfolding add_metric has_name
host_laws = record {
  taken = λ s n. has_name n s;
  register_value = λ m s f free. ground arith;
  register_taken = λ m s t. ground arith;
  register_takes = λ m s won n. ground arith;
}

abbrev three_options : List ControllerOption
three_options =
    with_etcd_image (lit "old") ∷ with_snapshot_timeout (pos 7) ∷ with_etcd_image (lit "new") ∷ []

controller_config-latest_example :
    let c = latest_config three_options unset in
    let made = controller_config three_options in
    (made ≡ record c { logger = made.logger }) × InUse c.logger made.logger
controller_config-latest_example = controller_config-latest three_options

setup_listener-panic_iff_example :
    (is_panic (setup_listener host (lit "unix://csi.sock") []).0 ≡ true)
    ↔ ((address : Str) × (lit "unix://csi.sock" ≡ unix_scheme ++ address) × IsSlashFree address)
setup_listener-panic_iff_example = setup_listener-panic_iff host (lit "unix://csi.sock") []

readiness_iff_example :
    let (h, s') = replay host tt (asked_readiness ∷ marked true ∷ []) new_health_checker [] in
    ((readiness host h tt s').0.status ≡ status_ok) ↔ (
      (latest mark_of false (asked_readiness ∷ marked true ∷ []) ≡ true)
      × (is_value (host.list_namespaces tt s').0 ≡ true))
readiness_iff_example = readiness_iff host tt (asked_readiness ∷ marked true ∷ []) []

all_free : (ms : List Metric) → AllFree (default_registry host) host_laws [] ms
unfolding host_laws has_name
all_free [] = tt
all_free (m ∷ ms) = (refl, all_free ms)

new_metrics_once_example :
    ((new_metrics (default_registry host) []).0 ≡ ok tt)
    × (is_panic (new_metrics (default_registry host) (new_metrics (default_registry host) []).1).0
        ≡ true)
new_metrics_once_example = new_metrics_once (default_registry host) host_laws [] (all_free metrics)

-- ===== src/Command/Logging.antt =====
-- `initializeLogging` and `parseLogLevel` (cmd/etcd-snapshot-driver/root.go).
pub mod Given
use etcd_snapshot_driver.Common.{
  Str, lit, str_eq, [], ◌∷◌, if◌then◌else◌, wrapped, lib, Act, pure, call_or, ◌>>◌,
}
use etcd_snapshot_driver.Controller.Types.{Logger, built_logger}
use etcd_snapshot_driver.Host.{
  Level, debug_level, info_level, warn_level, error_level, ZapConfig, Settings, Host,
}

unfoldable pub parse_log_level : Str → Level
parse_log_level level =
    if str_eq level (lit "debug")
    then debug_level
    else if str_eq level (lit "info")
    then info_level
    else if str_eq level (lit "warn")
    then warn_level
    else if str_eq level (lit "error")
    then error_level
    else info_level

unfoldable pub log_config : Settings → ZapConfig
unfolding parse_log_level
log_config v = record {
  is_development = str_eq (v.get_string (lit "log-format")) (lit "console");
  level = parse_log_level (v.get_string (lit "log-level"));
  output_paths = lit "stdout" ∷ [];
  error_output_paths = lit "stderr" ∷ [];
}

abbrev pub logger_from : (H : Host) → ZapConfig → Act H.State Logger
logger_from H config = do
  call_or (H.build_logger config) (λ e. wrapped (lit "failed to initialize logger") (lib e))
  pure built_logger

-- What viper answers when the command starts decides; the logger is left in the variable `logger`.
unfoldable pub initialize_logging : (H : Host) → H.Viper → Act H.State Logger
unfolding log_config
initialize_logging H v s = logger_from H (log_config (H.settings v s)) s

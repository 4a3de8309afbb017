-- ===== src/Server/Driver.antt =====
-- `Driver.Run` and the logging interceptor (internal/driver/driver.go).
pub mod Running
use etcd_snapshot_driver.Common.{
  Str, lit, Error, wrapped, Result, ok, err, panic, Act, pure, panics, map_err, read, List, ◌>>=◌,
  ◌>>◌,
}
use etcd_snapshot_driver.Host.{Host, Service, identity_service, group_controller_service}
use etcd_snapshot_driver.Controller.Types.{
  Logger, nil_logger, nop_logger, built_logger, ControllerConfig,
}
use etcd_snapshot_driver.Options.{DriverConfig}
use etcd_snapshot_driver.Server.Listener.{setup_listener}

-- `Driver`, with what its two servers hold.
pub record Driver : Type 0 where
  pub identity : Logger
  pub group_controller : ControllerConfig
  pub cfg : DriverConfig

-- A call for its effect.
abbrev pub effect : {S : Type 0} → (S → S) → Act S Unit
effect f s = (ok tt, f s)

-- A message that is logged; what is written is left out, but a nil logger is dereferenced.
unfoldable pub logged : {S : Type 0} → Logger → Act S Unit
logged nil_logger = panics (lit "runtime error: invalid memory address or nil pointer dereference")
logged nop_logger = pure tt
logged built_logger = pure tt

module _ (H : Host) (d : Driver) where
  abbrev pub new_server : Act H.State H.Server
  new_server = do
    server ← read H.new_server
    effect (H.register server (identity_service d.identity))
    effect (H.register server (group_controller_service d.group_controller))
    pure server

  abbrev pub new_listener : Act H.State H.Listener
  new_listener =
      map_err (wrapped (lit "failed to setup listener")) (setup_listener H d.cfg.end_point)

  -- Serve until the context is done or a signal comes; the listener is closed last.
  abbrev pub serve : H.Server → H.Listener → Act H.State Unit
  serve server listener = do
    effect (H.start_serving server listener)
    effect H.wait_for_shutdown
    effect (H.graceful_stop server)
    effect (H.close_listener listener)

  unfoldable pub run_driver : Act H.State Unit
  run_driver = logged d.cfg.logger >> (new_server >>= λ server. new_listener >>= serve server)

-- The interceptor logs, and hands on what the handler answers.
unfoldable pub logging_interceptor : {S A : Type 0} → Act S A → Act S A
logging_interceptor handler s = let (r, s') = handler s in (r, s')

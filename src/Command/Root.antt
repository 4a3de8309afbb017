-- ===== src/Command/Root.antt =====
-- `newRootCommand` (cmd/etcd-snapshot-driver/root.go), `newVersionCommand` (version.go) and `main`
-- (main.go).
pub mod Ending
pub mod Unread
use etcd_snapshot_driver.Common.{
  ℕ, Str, lit, ◌++◌, value, failure, lib, error_text, Result, ok, err, panic,
}
use etcd_snapshot_driver.Controller.Types.{Logger}
use etcd_snapshot_driver.Host.{Host, Invocation, root_invoked, version_invoked, answered}
use etcd_snapshot_driver.Server.Health.{HealthChecker, new_health_checker}
use etcd_snapshot_driver.Server.Identity.{version_text}
use etcd_snapshot_driver.Command.Flags.{flags, config_flag}
use etcd_snapshot_driver.Command.Settings.{setup_viper}
use etcd_snapshot_driver.Command.Logging.{initialize_logging}
use etcd_snapshot_driver.Command.Run.{run}

-- How the process ends.
pub data Exit : Type 0 where
  exit_status : ℕ → Exit
  crashed : Str → Exit

module _ (H : Host) where
  -- What a command gives back, with the readiness flag as it then is.
  abbrev pub Outcome : Type 0
  Outcome = (Result Unit × HealthChecker) × H.State

  abbrev pub not_started : Result Unit → H.State → Outcome
  not_started r s = ((r, new_health_checker), s)

  -- A command is run once the logger has been made.
  abbrev pub after_logging : Result Logger × H.State → (Logger → H.State → Outcome) → Outcome
  after_logging (ok logger, s) command = command logger s
  after_logging (err e, s) command = not_started (err e) s
  after_logging (panic p, s) command = not_started (panic p) s

  -- `PersistentPreRunE` comes before the root command and before `version`, which inherits it.
  unfoldable pub invoke : H.Viper → Invocation → H.State → Outcome
  invoke v (root_invoked cfg_file) s =
      after_logging (initialize_logging H v s) (λ logger. run H logger cfg_file v)
  invoke v version_invoked s =
      after_logging (initialize_logging H v s) (λ _ t. not_started (ok tt) (H.print version_text t))
  invoke v answered s = not_started (ok tt) s

  -- `ExecuteContext`
  unfoldable pub execute : H.Viper → H.State → Outcome
  unfolding invoke
  execute v s =
      let (parsed, s₁) = H.parse_command_line config_flag flags s in
      elim parsed [
        | failure e ↦ not_started (err (lib e)) s₁
        | value invocation ↦ invoke v invocation s₁
      ]

  abbrev pub exit_of : Result Unit → Exit
  exit_of (ok _) = exit_status 0
  exit_of (err _) = exit_status 1
  exit_of (panic p) = crashed p

  -- What follows the set-up. If that failed, `newRootCommand` ends the process.
  unfoldable pub after_setup : Result H.Viper × H.State → Exit × H.State
  unfolding execute
  after_setup (ok v, s) = let ((r, _), t) = execute v s in (exit_of r, t)
  after_setup (err e, s) =
      let message = lit "setting up configuration: " ++ (error_text e ++ lit "\n") in
      (exit_status 1, H.print_error message s)
  after_setup (panic p, s) = (crashed p, s)

  unfoldable pub main : H.State → Exit × H.State
  unfolding setup_viper after_setup
  main s = after_setup (setup_viper H s)

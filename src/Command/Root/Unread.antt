-- ===== src/Command/Root/Unread.antt =====
-- Where the making of the logger stands in the run of the process (cmd/etcd-snapshot-driver/root.go).
use etcd_snapshot_driver.Common.{value, failure, LibError, ◌≡◌, ◌≢◌, ◌∙◌, ap, subst, refl}
use etcd_snapshot_driver.Host.{Host, ZapConfig, Invocation, root_invoked, version_invoked, answered}
use etcd_snapshot_driver.Command.Flags.{flags}
use etcd_snapshot_driver.Command.Logging.{log_config}
use etcd_snapshot_driver.Command.Logging.Given.{FlagLaws, given_config, log_config-given}
use etcd_snapshot_driver.Command.Root.{
  Outcome, Exit, exit_status, exit_of, after_setup, invoke, execute, main,
}
use etcd_snapshot_driver.Command.Root.Ending.{parsed, logger_failed, viper_made}

module _ (H : Host) where
  abbrev ended : Outcome H → Exit × H.State
  ended ((r, _), t) = (exit_of H r, t)

  -- The end where the logger cannot be made.
  abbrev failed_with : ZapConfig → H.State → Exit × H.State
  failed_with c t = (exit_status 1, (H.build_logger c t).1)

  invoke_failed :
      (v : H.Viper) (i : Invocation) (t : H.State) {x : LibError}
      → i ≢ answered
      → (H.build_logger (log_config (H.settings v t)) t).0 ≡ failure x
      → ended (invoke H v i t) ≡ failed_with (log_config (H.settings v t)) t
  unfolding invoke
  invoke_failed v answered t told failed = absurd (told refl)
  invoke_failed v version_invoked t told failed =
      let (e, made) = logger_failed H v t failed in rw made refl
  invoke_failed v (root_invoked cfg_file) t told failed =
      let (e, made) = logger_failed H v t failed in rw made refl

  main-parsed :
      (s : H.State) {v : H.Viper} {i : Invocation}
      → (H.bind_flags flags s).0 ≡ value v
      → (parsed H s).0 ≡ value i
      → main H s ≡ ended (invoke H v i (parsed H s).1)
  unfolding main execute after_setup
  main-parsed s {v} {i} bound told =
      ap (after_setup H) (viper_made H s bound) ∙ rw (told, execute) refl

  -- Viper gives what its flags say as long as it has been told of nothing else. Where the root command or
  -- version is invoked, the logger is asked for with the level and the format of the command line, or
  -- else with info and json, whatever the environment and the configuration file say: if it cannot be
  -- made, the process ends with status 1, and nothing has been done but binding the flags, parsing the
  -- command line and asking for that logger.
  pub main_unread :
      (L : FlagLaws H) (s : H.State) {v : H.Viper} {i : Invocation} {x : LibError}
      → (H.bind_flags flags s).0 ≡ value v
      → (parsed H s).0 ≡ value i
      → i ≢ answered
      → (let t = (parsed H s).1 in (H.build_logger (given_config (L.given t)) t).0 ≡ failure x)
      → main H s ≡ (
          let t = (parsed H s).1 in
          (exit_status 1, (H.build_logger (given_config (L.given t)) t).1))
  main_unread L s {v} {i} {x} bound told asked failed =
      let t = (parsed H s).1 in
      main-parsed s bound told
      ∙ subst (λ c. (H.build_logger c t).0 ≡ failure x → ended (invoke H v i t) ≡ failed_with c t)
          (log_config-given H L s t bound) (invoke_failed v i t asked) failed

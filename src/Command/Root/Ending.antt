-- ===== src/Command/Root/Ending.antt =====
-- How the process ends, and when the driver says that it is ready.
use etcd_snapshot_driver.Common.{
  true-false, Str, lit, true, false, is_value, Reply, Reply-cases, value, failure, LibError,
  wrapped, lib, call_or, Error, Result, ok, err, panic, pure, after_call, ap, sym, ◌∙◌, inl, inr,
  ◌≡◌, ◌≢◌, ◌↔◌, refl, arith,
}
use etcd_snapshot_driver.Controller.Types.{Logger, nil_logger, built_logger}
use etcd_snapshot_driver.Host.{Host, Invocation, root_invoked, version_invoked, answered}
use etcd_snapshot_driver.Server.Health.{new_health_checker}
use etcd_snapshot_driver.Server.Identity.{version_text}
use etcd_snapshot_driver.Command.Flags.{flags, config_flag}
use etcd_snapshot_driver.Command.Settings.{setup_viper, load_options}
use etcd_snapshot_driver.Command.Logging.{log_config, initialize_logging}
use etcd_snapshot_driver.Command.Run.{run}
use etcd_snapshot_driver.Command.Run.Outcome.{CanPrepare, CanListen, run_outcome}
use etcd_snapshot_driver.Command.Root.{
  exit_status, Outcome, not_started, after_logging, exit_of, after_setup, invoke, execute, main,
}

same_value : {A : Type 0} (a b : A) → value a ≡ value b → a ≡ b
same_value a b e = cc

built_given : built_logger ≢ nil_logger
built_given e = cc

new_not_ready : new_health_checker.ready ≡ false
new_not_ready = refl

module _ (H : Host) where
  module _ (v : H.Viper) (s : H.State) where
    -- The building of the logger.
    abbrev pub built : Reply Unit × H.State
    built = H.build_logger (log_config (H.settings v s)) s

    logger_made :
        {u : Unit} → built.0 ≡ value u → initialize_logging H v s ≡ (ok built_logger, built.1)
    unfolding initialize_logging
    logger_made e =
        after_call (λ t. H.build_logger (log_config (H.settings v t)) t)
          (λ x. wrapped (lit "failed to initialize logger") (lib x)) (λ _. pure built_logger) s e

    pub logger_failed :
        {x : LibError}
        → built.0 ≡ failure x
        → (e : Error) × (initialize_logging H v s ≡ (err e, built.1))
    unfolding initialize_logging
    logger_failed {x} e = (wrapped (lit "failed to initialize logger") (lib x), ground arith)

    module _ (command : Logger → H.State → Outcome H) where
      abbrev Started : Outcome H
      Started = after_logging H (initialize_logging H v s) command

      -- A command ends well, and says that it is ready, only after the logger has been made.
      started_ok_iff :
          (Started.0.0 ≡ ok tt)
          ↔ ((is_value built.0 ≡ true) × ((command built_logger built.1).0.0 ≡ ok tt))
      started_ok_iff = elim (Reply-cases built.0) [
        | inl (u, e) ↦ rw (logger_made e, e) (λ h. (refl, h), λ p. p.1)
        | inr (x, e) ↦ let (y, made) = logger_failed e in rw (made, e) (λ h. cc, λ p. cc)
      ]

      started_ready_iff :
          (Started.0.1.ready ≡ true)
          ↔ ((is_value built.0 ≡ true) × ((command built_logger built.1).0.1.ready ≡ true))
      started_ready_iff = elim (Reply-cases built.0) [
        | inl (u, e) ↦ rw (logger_made e, e) (λ h. (refl, h), λ p. p.1)
        | inr (x, e) ↦
            let (y, made) = logger_failed e in
            rw (made, e) (λ h. absurd (true-false (sym h ∙ new_not_ready)), λ p. cc)
      ]

    -- What each command needs to end without an error.
    abbrev pub CanEnd : Invocation → Type 0
    CanEnd (root_invoked cfg_file) =
        (is_value built.0 ≡ true)
        × CanPrepare H (load_options H cfg_file v built.1).1
        × CanListen H built_logger cfg_file v built.1
    CanEnd version_invoked = is_value built.0 ≡ true
    CanEnd answered = Unit

    invoke-ok_iff : (i : Invocation) → ((invoke H v i s).0.0 ≡ ok tt) ↔ CanEnd i
    unfolding invoke
    invoke-ok_iff answered = (λ h. tt, λ h. refl)
    invoke-ok_iff version_invoked =
        let (to, from) = started_ok_iff (λ _ t. not_started H (ok tt) (H.print version_text t)) in
        (λ h. (to h).0, λ h. from (h, refl))
    invoke-ok_iff (root_invoked cfg_file) =
        let (to, from) = started_ok_iff (λ logger. run H logger cfg_file v) in
        let (ends, _) = run_outcome H built_logger cfg_file v built.1 in
        (
          λ h. let (b, r) = to h in let (_, p, can) = ends.0 r in (b, p, can),
          λ (b, p, can). from (b, ends.1 (built_given, p, can)),
        )

    not_root : (cfg_file : Str) → version_invoked ≡ root_invoked cfg_file → ⊥
    not_root cfg_file e = cc

    not_root' : (cfg_file : Str) → answered ≡ root_invoked cfg_file → ⊥
    not_root' cfg_file e = cc

    same_file : (f g : Str) → root_invoked f ≡ root_invoked g → f ≡ g
    same_file f g e = cc

    -- The driver says that it is ready exactly if the root command was invoked, the logger was made, the
    -- in-cluster configuration was read, the Kubernetes client was made and the metrics were registered
    -- one after the other, whether it can listen or not.
    pub invoke-ready_iff :
        (i : Invocation)
        → ((invoke H v i s).0.1.ready ≡ true) ↔ (
            (cfg_file : Str) × (i ≡ root_invoked cfg_file)
            × (is_value built.0 ≡ true)
            × CanPrepare H (load_options H cfg_file v built.1).1)
    unfolding invoke
    invoke-ready_iff answered = (λ h. cc, λ (f, e, _, _). absurd (not_root' f e))
    invoke-ready_iff version_invoked =
        let (to, _) = started_ready_iff (λ _ t. not_started H (ok tt) (H.print version_text t)) in
        (λ h. absurd (true-false (sym (to h).1)), λ (f, e, _, _). absurd (not_root f e))
    invoke-ready_iff (root_invoked cfg_file) =
        let (to, from) = started_ready_iff (λ logger. run H logger cfg_file v) in
        let (_, ready) = run_outcome H built_logger cfg_file v built.1 in
        (
          λ h. let (b, r) = to h in (cfg_file, refl, b, (ready.0 r).1),
          λ (f, e, b, p). from (b, ready.1 (built_given, rw (← same_file cfg_file f e) at p)),
        )

  -- The command line, as it is parsed once the flags have been bound.
  abbrev pub parsed : H.State → Reply Invocation × H.State
  parsed s = H.parse_command_line config_flag flags (H.bind_flags flags s).1

  exit_ok_iff : (r : Result Unit) → (exit_of H r ≡ exit_status 0) ↔ (r ≡ ok tt)
  exit_ok_iff (ok _) = (λ h. refl, λ h. refl)
  exit_ok_iff (err e) = (λ h. cc, λ h. cc)
  exit_ok_iff (panic p) = (λ h. cc, λ h. cc)

  execute-ok_iff :
      (v : H.Viper) (s : H.State)
      → ((execute H v s).0.0 ≡ ok tt) ↔ (
          let (reply, t) = H.parse_command_line config_flag flags s in
          (i : Invocation) × (reply ≡ value i) × CanEnd v t i)
  unfolding execute
  execute-ok_iff v s = elim (Reply-cases (H.parse_command_line config_flag flags s).0) [
    | inl (i, e) ↦
        let (to, from) = invoke-ok_iff v (H.parse_command_line config_flag flags s).1 i in
        rw (e, execute)
          (λ h. (i, refl, to h), λ (j, same, can). from (rw (← same_value i j same) at can))
    | inr (x, e) ↦ rw (e, execute) (λ h. cc, λ (j, same, can). cc)
  ]

  pub viper_made :
      (s : H.State) {v : H.Viper}
      → (H.bind_flags flags s).0 ≡ value v
      → setup_viper H s ≡ (ok v, (H.bind_flags flags s).1)
  unfolding setup_viper
  viper_made s e = rw (e, call_or) refl

  viper_failed :
      (s : H.State) {x : LibError}
      → (H.bind_flags flags s).0 ≡ failure x
      → (y : Error) × (setup_viper H s ≡ (err y, (H.bind_flags flags s).1))
  unfolding setup_viper
  viper_failed s {x} e = (wrapped (lit "binding flags") (lib x), rw (e, call_or) refl)

  main_made :
      (s t : H.State) (v : H.Viper)
      → setup_viper H s ≡ (ok v, t)
      → (main H s).0 ≡ exit_of H (execute H v t).0.0
  unfolding main
  main_made s t v e = ap (λ p. (after_setup H p).0) e

  main_failed :
      (s t : H.State) (y : Error) → setup_viper H s ≡ (err y, t) → (main H s).0 ≡ exit_status 1
  unfolding main
  main_failed s t y e = ap (λ p. (after_setup H p).0) e

  -- The process ends with status 0 exactly if the flags are bound and the command line is parsed, and
  -- then either cobra answers it itself; or it is `version`, and the logger is built; or it is the root
  -- command, the logger is built, the in-cluster configuration is read, the Kubernetes client is made,
  -- the metrics are registered one after the other, the endpoint is `unix://dir/name`, the directory can be made and the socket
  -- listens.
  pub main-exit_iff :
      (s : H.State)
      → ((main H s).0 ≡ exit_status 0) ↔ (
          (v : H.Viper) × (i : Invocation) × ((H.bind_flags flags s).0 ≡ value v)
          × ((parsed s).0 ≡ value i)
          × CanEnd v (parsed s).1 i)
  main-exit_iff s = elim (Reply-cases (H.bind_flags flags s).0) [
    | inl (v, e) ↦
        let (to, from) = execute-ok_iff v (H.bind_flags flags s).1 in
        let exits = exit_ok_iff (execute H v (H.bind_flags flags s).1).0.0 in
        rw (main_made s (H.bind_flags flags s).1 v (viper_made s e), e)
          (
            λ h. let (i, p, can) = to (exits.0 h) in (v, i, refl, p, can),
            λ (w, i, same, p, can). exits.1 (from (i, p, rw (← same_value v w same) at can)),
          )
    | inr (x, e) ↦
        let (y, failed) = viper_failed s e in
        rw (main_failed s (H.bind_flags flags s).1 y failed, e)
          (λ h. cc, λ (w, i, same, p, can). cc)
  ]

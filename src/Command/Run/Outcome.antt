-- ===== src/Command/Run/Outcome.antt =====
-- When the command ends well, and when the driver says that it is ready.
use etcd_snapshot_driver.Server.Metrics.Registered.{register_step, register_stop}
use etcd_snapshot_driver.Common.{
  Bool-cases, true-false, LibError, err-ne-ok, panic-ne-ok, Act, call_or, lib, ◌>>=◌, after_call,
  failed_call, ap, Reply-cases, value, failure, is_value, List, [], ◌∷◌, inl, inr, Str, lit, true,
  ◌++◌, Result, ok, err, panic, ◌≡◌, ◌≢◌, ◌↔◌, refl, sym, ◌∙◌,
}
use etcd_snapshot_driver.Volume.Split.{IsSlashFree}
use etcd_snapshot_driver.Controller.Types.{Logger, nil_logger, nop_logger, built_logger}
use etcd_snapshot_driver.Host.{Settings, Metric, Host}
use etcd_snapshot_driver.Server.Driver.{logged, run_driver}
use etcd_snapshot_driver.Server.Driver.Running.{registered, run_driver-ok_iff}
use etcd_snapshot_driver.Server.Listener.Endpoint.{joined, Listens, setup_listener-ok_iff}
use etcd_snapshot_driver.Server.Health.{set_ready}
use etcd_snapshot_driver.Server.Metrics.{metrics, default_registry, register_all, new_metrics}
use etcd_snapshot_driver.Command.Settings.{load_options}
use etcd_snapshot_driver.Command.Run.{prepare, new_driver, run}

-- Each of these is registered, one after the other.
abbrev pub AllRegistered : (H : Host) → List Metric → H.State → Type 0
AllRegistered H [] s = Unit
AllRegistered H (m ∷ ms) s =
    let (reply, t) = H.register_metric m s in (is_value reply ≡ true) × AllRegistered H ms t

-- What has to go well before the servers are started.
abbrev pub CanPrepare : (H : Host) → H.State → Type 0
CanPrepare H s =
    let (reply, t) = H.in_cluster_config s in
    (rest : H.RestConfig) × (reply ≡ value rest)
    × (is_value (H.new_for_config rest t).0 ≡ true)
    × AllRegistered H metrics (H.new_for_config rest t).1

module _ (H : Host) where
  register_all-AllRegistered :
      (ms : List Metric) (s : H.State)
      → ((register_all (default_registry H) ms s).0 ≡ ok tt) ↔ AllRegistered H ms s
  unfolding register_all
  register_all-AllRegistered [] s = (λ h. tt, λ h. refl)
  register_all-AllRegistered (m ∷ ms) s =
      let R = default_registry H in
      elim (Bool-cases (is_value (H.register_metric m s).0)) [
        | inl won ↦
            let (to, from) = register_all-AllRegistered ms (H.register_metric m s).1 in
            rw (register_step R m ms s won, won) (λ h. (refl, to h), λ (_, h). from h)
        | inr lost ↦ (
          λ h. cc (rw h at (register_stop R m ms s lost)),
          λ (h, _). absurd (true-false (sym h ∙ lost)),
        )
      ]

  -- The calls, the message apart.
  abbrev with_rest : H.RestConfig → Act H.State Unit
  with_rest cfg = call_or (H.new_for_config cfg) lib >>= λ _. new_metrics (default_registry H)

  abbrev clients : Act H.State Unit
  clients = call_or H.in_cluster_config lib >>= with_rest

  new_metrics_iff :
      (s : H.State) → ((new_metrics (default_registry H) s).0 ≡ ok tt) ↔ AllRegistered H metrics s
  unfolding new_metrics
  new_metrics_iff = register_all-AllRegistered metrics

  -- Where the first call, and then the second, has answered or not.
  clients_answered :
      (s : H.State) {rest : H.RestConfig} {made : H.KubeClient}
      → (H.in_cluster_config s).0 ≡ value rest
      → (H.new_for_config rest (H.in_cluster_config s).1).0 ≡ value made
      → clients s
        ≡ new_metrics (default_registry H) (H.new_for_config rest (H.in_cluster_config s).1).1
  clients_answered s {rest} e e' =
      after_call H.in_cluster_config lib with_rest s e
      ∙ after_call (H.new_for_config rest) lib (λ _. new_metrics (default_registry H))
          (H.in_cluster_config s).1 e'

  clients_unanswered :
      (s : H.State) {rest : H.RestConfig} {x : LibError}
      → (H.in_cluster_config s).0 ≡ value rest
      → (H.new_for_config rest (H.in_cluster_config s).1).0 ≡ failure x
      → (clients s).0 ≡ err (lib x)
  clients_unanswered s {rest} e e' =
      ap (λ r. r.0) (after_call H.in_cluster_config lib with_rest s e)
      ∙ failed_call (H.new_for_config rest) lib (λ _. new_metrics (default_registry H))
          (H.in_cluster_config s).1 e'

  same_rest : (a b : H.RestConfig) → value a ≡ value b → a ≡ b
  same_rest a b e = cc

  clients-ok_iff : (s : H.State) → ((clients s).0 ≡ ok tt) ↔ CanPrepare H s
  clients-ok_iff s = elim (Reply-cases (H.in_cluster_config s).0) [
    | inl (rest, e) ↦ elim (Reply-cases (H.new_for_config rest (H.in_cluster_config s).1).0) [
      | inl (made, e') ↦
          let (to, from) = new_metrics_iff (H.new_for_config rest (H.in_cluster_config s).1).1 in
          let same = ap (λ r. r.0) (clients_answered s e e') in
          (
            λ h. (rest, e, rw e' refl, to (sym same ∙ h)),
            λ (rest', answer, _, registered).
                same ∙ from (rw (← same_rest rest rest' (sym e ∙ answer)) at registered),
          )
      | inr (x, e') ↦ (
        λ h. absurd (err-ne-ok (sym (clients_unanswered s e e') ∙ h)),
        λ (rest', answer, made, _). cc (rw (← same_rest rest rest' (sym e ∙ answer), e') at made),
      )
    ]
    | inr (x, e) ↦ (
      λ h. absurd (err-ne-ok (sym (failed_call H.in_cluster_config lib with_rest s e) ∙ h)),
      λ (rest, answer, _, _). cc (rw e at answer),
    )
  ]

  prepare-ok_iff :
      (logger : Logger) (s : H.State)
      → ((prepare H logger s).0 ≡ ok tt) ↔ ((logger ≢ nil_logger) × CanPrepare H s)
  unfolding prepare logged
  prepare-ok_iff nil_logger s = (λ h. absurd (panic-ne-ok h), λ (given, _). absurd (given refl))
  prepare-ok_iff nop_logger s =
      let (to, from) = clients-ok_iff s in (λ h. (λ e. cc, to h), λ (_, h). from h)
  prepare-ok_iff built_logger s =
      let (to, from) = clients-ok_iff s in (λ h. (λ e. cc, to h), λ (_, h). from h)

module _ (H : Host) (logger : Logger) (cfg_file : Str) (v : H.Viper) (s : H.State) where
  abbrev pub loaded : H.Viper × H.State
  loaded = load_options H cfg_file v s

  abbrev pub prepared : Result Unit × H.State
  prepared = prepare H logger loaded.1

  -- The state in which the driver is run, what viper answers then, and the state in which the listener
  -- is set up.
  abbrev pub started : H.State
  started =
      H.start_http ((H.settings loaded.0 prepared.1).get_string (lit "metrics-bind-address"))
        prepared.1

  abbrev pub settings : Settings
  settings = H.settings loaded.0 started

  abbrev pub listening : H.State
  listening = registered H (new_driver logger settings) started

  -- The endpoint is `unix://dir/name`, the directory can be made, and the socket listens.
  abbrev pub CanListen : Type 0
  CanListen =
      (l : H.Listener) × (dir : Str) × (name : Str) × (settings.get_string (lit "csi-endpoint")
        ≡ lit "unix://" ++ joined dir name)
      × IsSlashFree name
      × Listens H dir name listening l

  run_prepared :
      prepared.0 ≡ ok tt
      → (run H logger cfg_file v s).0.0 ≡ (run_driver H (new_driver logger settings) started).0
  unfolding run
  run_prepared e = rw (e, run) refl

  run_ready : ((run H logger cfg_file v s).0.1.ready ≡ true) ↔ (prepared.0 ≡ ok tt)
  unfolding run set_ready
  run_ready = (ready_prepared, λ e. rw (e, run) refl)
    where
      go :
          (r : Result Unit)
          → prepared.0 ≡ r
          → (run H logger cfg_file v s).0.1.ready ≡ true
          → r ≡ ok tt
      go (ok _) e h = refl
      go (err x) e h = cc (rw (e, run) at h)
      go (panic x) e h = cc (rw (e, run) at h)

      ready_prepared : (run H logger cfg_file v s).0.1.ready ≡ true → prepared.0 ≡ ok tt
      ready_prepared h = go prepared.0 refl h

  ok_prepared : (run H logger cfg_file v s).0.0 ≡ ok tt → prepared.0 ≡ ok tt
  unfolding run
  ok_prepared h = go prepared.0 refl
    where
      go : (r : Result Unit) → prepared.0 ≡ r → prepared.0 ≡ ok tt
      go (ok _) e = e
      go (err x) e = cc (rw (e, run) at h)
      go (panic x) e = cc (rw (e, run) at h)

  serves :
      ((run_driver H (new_driver logger settings) started).0 ≡ ok tt)
      ↔ ((logger ≢ nil_logger) × CanListen)
  unfolding new_driver
  serves = (
    λ h.
        let (n, (l, made)) = (run_driver-ok_iff H (new_driver logger settings) started).0 h in
        let (dir, name, e, free, listens) =
          (setup_listener-ok_iff H (settings.get_string (lit "csi-endpoint")) listening l).0 made in
        (n, (l, dir, name, e, free, listens)),
    λ (n, (l, dir, name, e, free, listens)).
        (run_driver-ok_iff H (new_driver logger settings) started).1 (
          n,
          (
            l,
            (setup_listener-ok_iff H (settings.get_string (lit "csi-endpoint")) listening l).1
                (dir, name, e, free, listens),
          ),
        ),
  )

  -- It ends without an error exactly if there is a logger, the in-cluster configuration is read, the
  -- Kubernetes client and the metrics are made, and the socket listens; the driver is marked as ready
  -- exactly if all this but the last is so.
  pub run_outcome :
      (((run H logger cfg_file v s).0.0 ≡ ok tt)
        ↔ ((logger ≢ nil_logger) × CanPrepare H loaded.1 × CanListen))
      × (((run H logger cfg_file v s).0.1.ready ≡ true)
          ↔ ((logger ≢ nil_logger) × CanPrepare H loaded.1))
  run_outcome =
      let (can_prepare, prepares) = prepare-ok_iff H logger loaded.1 in
      (
        (
          λ h.
              let e = ok_prepared h in
              let (given, can) = can_prepare e in
              let (_, listens) = serves.0 (sym (run_prepared e) ∙ h) in (given, can, listens),
          λ (given, can, listens). run_prepared (prepares (given, can)) ∙ serves.1 (given, listens),
        ),
        (λ h. can_prepare (run_ready.0 h), λ p. run_ready.1 (prepares p)),
      )

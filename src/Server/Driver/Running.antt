-- ===== src/Server/Driver/Running.antt =====
-- The server runs exactly if its listener is made.
use etcd_snapshot_driver.Common.{
  ok, Act, ◌>>◌, ◌>>=◌, >>=-ok, >>=-eq-ok, is_panic, true, ◌≡◌, ◌≢◌, ◌⊎◌, inl, inr, sym, ◌↔◌, refl,
  ap, ◌∙◌, arith,
}
use etcd_snapshot_driver.Controller.Types.{Logger, nil_logger, nop_logger, built_logger}
use etcd_snapshot_driver.Host.{Host}
use etcd_snapshot_driver.Server.Listener.{setup_listener}
use etcd_snapshot_driver.Server.Driver.{Driver, new_server, new_listener, serve, logged, run_driver}

module _ (H : Host) (d : Driver) (s : H.State) where
  -- The state in which the listener is set up.
  abbrev pub registered : H.State
  registered = (new_server H d s).1

  listener_made :
      (l : H.Listener)
      → ((new_listener H d registered).0 ≡ ok l)
        ↔ ((setup_listener H d.cfg.end_point registered).0 ≡ ok l)
  listener_made l = (λ h. ground arith, λ h. ground arith)

  serving : Act H.State Unit
  serving = new_listener H d >>= serve H d (H.new_server s).0

  serving_ok :
      ((serving registered).0 ≡ ok tt)
      ↔ ((l : H.Listener) × ((setup_listener H d.cfg.end_point registered).0 ≡ ok l))
  unfolding serving
  serving_ok = (
    λ h.
        let (l, made, _) =
          >>=-eq-ok (new_listener H d) (serve H d (H.new_server s).0) registered h in
        (l, (listener_made l).0 made),
    λ p.
        ap (λ r. r.0)
          (>>=-ok (new_listener H d) (serve H d (H.new_server s).0) registered
            ((listener_made p.0).1 p.1)),
  )

  logger_cases : (l : Logger) → (l ≡ nil_logger) ⊎ (l ≢ nil_logger)
  logger_cases nil_logger = inl refl
  logger_cases nop_logger = inr (λ e. cc)
  logger_cases built_logger = inr (λ e. cc)

  nil_panics : d.cfg.logger ≡ nil_logger → is_panic (run_driver H d s).0 ≡ true
  unfolding run_driver logged
  nil_panics e = rw (e, run_driver) refl

  after_logged : (l : Logger) (m : Act H.State Unit) → l ≢ nil_logger → (logged l >> m) s ≡ m s
  unfolding logged
  after_logged nil_logger m n = absurd (n refl)
  after_logged nop_logger m n = refl
  after_logged built_logger m n = refl

  logged_serving : d.cfg.logger ≢ nil_logger → (run_driver H d s).0 ≡ (serving registered).0
  unfolding run_driver serving
  logged_serving n =
      ap (λ r. r.0)
        (after_logged d.cfg.logger
          (new_server H d >>= λ server. new_listener H d >>= serve H d server) n)

  -- Serving ends without an error exactly if there is a logger and the listener is made.
  pub run_driver-ok_iff : ((run_driver H d s).0 ≡ ok tt) ↔ (
      (d.cfg.logger ≢ nil_logger)
      × ((l : H.Listener) × ((setup_listener H d.cfg.end_point registered).0 ≡ ok l)))
  run_driver-ok_iff = elim (logger_cases d.cfg.logger) [
    | inl e ↦ (λ h. cc (h, nil_panics e), λ p. absurd (p.0 e))
    | inr n ↦ (
      λ h. (n, serving_ok.0 (sym (logged_serving n) ∙ h)),
      λ p. logged_serving n ∙ serving_ok.1 p.1,
    )
  ]

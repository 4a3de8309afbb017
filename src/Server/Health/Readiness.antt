-- ===== src/Server/Health/Readiness.antt =====
-- When the readiness endpoint answers that the driver is ready.
use etcd_snapshot_driver.Common.{
  is_value, Bool, true, false, Option, none, some, List, [], ◌∷◌, latest, ◌≡◌, ◌↔◌, refl, arith,
}
use etcd_snapshot_driver.Host.{Host}
use etcd_snapshot_driver.Server.Health.{
  status_ok, HealthChecker, new_health_checker, set_ready, readiness,
}

-- What happens to the checker, in the order in which the mutex lets it: the flag is set, or one of
-- the two endpoints is asked.
pub data Event : Type 0 where
  marked : Bool → Event
  asked_liveness asked_readiness : Event

abbrev pub mark_of : Event → Option Bool
mark_of (marked b) = some b
mark_of asked_liveness = none
mark_of asked_readiness = none

module _ (H : Host) (client : H.KubeClient) where
  unfoldable pub replay : List Event → HealthChecker → H.State → HealthChecker × H.State
  unfolding set_ready
  replay [] h s = (h, s)
  replay (marked b ∷ es) h s = replay es (set_ready b h) s
  replay (asked_liveness ∷ es) h s = replay es h s
  replay (asked_readiness ∷ es) h s = let (_, s') = readiness H h client s in replay es h s'

  replay-latest :
      (es : List Event) (h : HealthChecker) (s : H.State)
      → (replay es h s).0.ready ≡ latest mark_of h.ready es
  unfolding replay
  replay-latest [] h s = refl
  replay-latest (marked b ∷ es) h s = replay-latest es (set_ready b h) s
  replay-latest (asked_liveness ∷ es) h s = replay-latest es h s
  replay-latest (asked_readiness ∷ es) h s = replay-latest es h (readiness H h client s).1

  readiness_ok :
      (h : HealthChecker) (s : H.State)
      → ((readiness H h client s).0.status ≡ status_ok)
        ↔ ((h.ready ≡ true) × (is_value (H.list_namespaces client s).0 ≡ true))
  unfolding readiness
  readiness_ok h s = (λ e. ground arith, λ e. ground arith)

  -- After any sequence of settings of the flag and of requests: the readiness endpoint answers 200
  -- exactly if the flag was last set to true, and was set at all, and the API server answers.
  pub readiness_iff :
      (es : List Event) (s : H.State)
      → (let (h, s') = replay es new_health_checker s in
          ((readiness H h client s').0.status ≡ status_ok)
          ↔ ((latest mark_of false es ≡ true) × (is_value (H.list_namespaces client s').0 ≡ true)))
  readiness_iff es s = rw (← replay-latest es new_health_checker s) (readiness_ok _ _)

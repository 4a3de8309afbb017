-- ===== src/Tests/Health.antt =====
-- Examples for the discovery and the health check.
use etcd_snapshot_driver.Common.{
  is_value, Str, lit, str_eq, true, false, not, none, List, [], ◌∷◌, Reply, value, ok, is_panic,
  ◌≡◌, ◌↔◌, inl, inr, refl, arith,
}
use etcd_snapshot_driver.Fake.{Answers, world}
use etcd_snapshot_driver.Snapshot.Table.{Contents}
use etcd_snapshot_driver.Etcd.Health.{validate_health}
use etcd_snapshot_driver.Etcd.Health.Quorum.{IsSteady, IsHealthy, AllAddressed, validate_health_iff}
use etcd_snapshot_driver.Etcd.Health.Crash.{validate_health_down}
use etcd_snapshot_driver.Kube.{Pod}
use etcd_snapshot_driver.Etcd.Discovery.{cluster_of_pods, discover_cluster}
use etcd_snapshot_driver.Etcd.Discovery.Found.{Finds, discover_cluster-ok_iff}
use etcd_snapshot_driver.Controller.Create.{discovery}
use etcd_snapshot_driver.Tests.World.{four_members, good, config, no_maps}

abbrev one_pod : List Pod
one_pod = record { name = lit "etcd-0"; containers = lit "etcd" ∷ [] } ∷ []

discover_cluster-ok_iff_example :
    ((discover_cluster
        (world good)
        (discovery (world good) config)
        (lit "prod")
        (lit "data-etcd-0")
        no_maps).0
      ≡ ok (cluster_of_pods (lit "prod") (lit "main") one_pod))
    ↔ Finds
        (world good)
        (discovery (world good) config)
        (lit "prod")
        (lit "data-etcd-0")
        no_maps
        (cluster_of_pods (lit "prod") (lit "main") one_pod)
discover_cluster-ok_iff_example =
    discover_cluster-ok_iff (world good) (discovery (world good) config) (lit "prod")
      (lit "data-etcd-0") no_maps (cluster_of_pods (lit "prod") (lit "main") one_pod)

-- The same, with `c` unreachable.
abbrev one_down : Answers
one_down = record good { is_up = λ url. not (str_eq url (lit "c")) }

asked_lem :
    (url : Str) {client : List Str}
    → ◌≡◌ {A = Reply (List Str)} (value (url ∷ [])) (value client)
    → is_value ((world good).get_key client (lit "health") no_maps).0 ≡ good.is_healthy url
asked_lem url {client} e = let same : url ∷ [] ≡ client = cc in rw (← same) (ground arith)

steady : IsSteady (world good) none good.is_healthy
steady = record {
  dialled = λ url s. refl;
  asked = λ url s t e. asked_lem url e;
  closed = λ c s. refl;
}

addressed : AllAddressed four_members.members
addressed = (inr (λ e. cc), (inr (λ e. cc), (inr (λ e. cc), (inl refl, tt))))

validate_health_iff_example :
    ((validate_health (world good) none (lit "a" ∷ []) no_maps).0 ≡ ok tt)
    ↔ IsHealthy good.is_healthy four_members
validate_health_iff_example =
    validate_health_iff (world good) none steady (lit "a" ∷ []) no_maps (λ e. cc) refl refl
      addressed

unreachable :
    (url : Str) (s : Contents)
    → str_eq url (lit "c") ≡ true
    → is_value ((world one_down).new_client (url ∷ []) none s).0 ≡ false
unreachable url s h = ground arith

validate_health_down_example :
    is_panic (validate_health (world one_down) none (lit "a" ∷ []) no_maps).0 ≡ true
unfolding lit str_eq
validate_health_down_example =
    validate_health_down (world one_down) none (λ url. str_eq url (lit "c")) unreachable (λ s. refl)
      (lit "a" ∷ []) no_maps (λ e. cc) refl refl (inr (inr (inl (refl, refl))))

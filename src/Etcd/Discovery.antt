-- ===== src/Etcd/Discovery.antt =====
-- `Discovery` (internal/etcd/discovery.go).
pub mod Found
use etcd_snapshot_driver.Common.{
  Str, lit, length, Bool, not, Option, none, some, List, [], ◌∷◌, ◌++◌, map, leb, ◌==◌, errorf,
  wrapped, lib, Act, pure, throw, reject_if, call_or, ◌>>=◌, ◌>>◌,
}
use etcd_snapshot_driver.Common.Dict
use etcd_snapshot_driver.Env.{Env}
use etcd_snapshot_driver.Kube.{Pod}
use etcd_snapshot_driver.Etcd.Health.{validate_health}

pub record MemberInfo : Type 0 where
  pub name : Str
  pub id : Str
  pub client_urls : List Str
  pub peer_urls : List Str

pub record ClusterInfo : Type 0 where
  pub name : Str
  pub namespace : Str
  pub endpoints : List Str
  pub members : List MemberInfo
  pub version : Str
  pub has_quorum : Bool

unfoldable pub endpoint : Str → Pod → Str
endpoint namespace pod =
    lit "https://" ++ (pod.name ++ (lit "." ++ (namespace ++ lit ".svc.cluster.local:2379")))

unfoldable pub cluster_of_pods : Str → Str → List Pod → ClusterInfo
unfolding endpoint
cluster_of_pods namespace cluster_name pods = record {
  name = cluster_name;
  namespace = namespace;
  endpoints = map (endpoint namespace) pods;
  members = [];
  version = [];
  has_quorum = leb 3 (length pods);
}

-- A health validator holds its TLS configuration.
pub record Discovery (E : Env) : Type 0 where
  pub cluster_label_key : Str
  pub health_validator : Option (Option E.TlsConfig)

module _ (E : Env) where
  -- `NewDiscovery`: a validator without TLS.
  unfoldable pub new_discovery : Str → Discovery E
  new_discovery key = record { cluster_label_key = key; health_validator = some none }

  unfoldable pub discover_by_label : Discovery E → Str → Str → Act E.State ClusterInfo
  unfolding cluster_of_pods
  discover_by_label d namespace cluster_name = do
    pods ←
        call_or (E.list_pods namespace (E.selector ((d.cluster_label_key, cluster_name) ∷ [])))
          (λ e. wrapped (lit "failed to list pods by label") (lib e))
    reject_if (length pods == 0) (
        errorf (
          lit "no ETCD pods found with label "
          ++ (d.cluster_label_key ++ (lit "=" ++ cluster_name))))
    pure (cluster_of_pods namespace cluster_name pods)

  -- The value of the cluster label of a PVC.
  abbrev pub label_of : Discovery E → Str → Str → Option Str → Act E.State Str
  label_of d namespace pvc_name (some cluster_name) = pure cluster_name
  label_of d namespace pvc_name none = throw (
      errorf (
        lit "PVC "
        ++ (namespace
            ++ (lit "/" ++ (pvc_name ++ (lit " missing required label " ++ d.cluster_label_key))))))

  unfoldable pub discover_cluster : Discovery E → Str → Str → Act E.State ClusterInfo
  unfolding discover_by_label
  discover_cluster d namespace pvc_name = do
    pvc ← call_or (E.get_pvc namespace pvc_name) (λ e. wrapped (lit "failed to get PVC") (lib e))
    cluster_name ← label_of d namespace pvc_name (Dict.lookup d.cluster_label_key pvc.meta.labels)
    discover_by_label d namespace cluster_name

  unfoldable pub validate_cluster_health : Discovery E → ClusterInfo → Act E.State Unit
  validate_cluster_health d cluster = elim d.health_validator [
    | none ↦
        reject_if (not cluster.has_quorum)
          (errorf (lit "cluster " ++ (cluster.name ++ lit " does not have quorum")))
    | some tls ↦ validate_health E tls cluster.endpoints
  ]

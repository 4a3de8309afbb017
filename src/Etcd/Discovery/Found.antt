-- ===== src/Etcd/Discovery/Found.antt =====
-- What `DiscoverCluster` finds (internal/etcd/discovery.go).
use etcd_snapshot_driver.Common.{
  ℕ, ◌≤◌, leb, sym, subst, Bool, false, Bool-cases, true-false, Str, lit, length, true, some, List,
  [], ◌∷◌, ◌++◌, map, ok, Reply, value, Reply-cases, Option-cases, ◌≡◌, ◌≢◌, ◌↔◌, inl, inr, arith,
  refl,
}
use etcd_snapshot_driver.Common.Dict.{lookup}
use etcd_snapshot_driver.Env.{Env}
use etcd_snapshot_driver.Kube.{Pod, Pvc}
use etcd_snapshot_driver.Etcd.Discovery.{
  ClusterInfo, Discovery, endpoint, cluster_of_pods, discover_by_label, discover_cluster,
}

-- One endpoint for each pod, in order: port 2379 of the host that is named after the pod.
abbrev pub AreEndpoints : Str → List Pod → List Str → Type 0
AreEndpoints namespace [] [] = Unit
AreEndpoints namespace [] (_ ∷ _) = ⊥
AreEndpoints namespace (_ ∷ _) [] = ⊥
AreEndpoints namespace (p ∷ pods) (e ∷ es) =
    (e ≡ lit "https://" ++ (p.name ++ (lit "." ++ (namespace ++ lit ".svc.cluster.local:2379"))))
    × AreEndpoints namespace pods es

-- The cluster that these pods make up; its members and its version are not asked for.
abbrev pub IsMadeOf : Str → Str → List Pod → ClusterInfo → Type 0
IsMadeOf namespace name pods c =
    (c.name ≡ name)
    × (c.namespace ≡ namespace)
    × AreEndpoints namespace pods c.endpoints
    × (c.members ≡ [])
    × (c.version ≡ [])
    × ((c.has_quorum ≡ true) ↔ (3 ≤ length pods))

endpoints-AreEndpoints :
    (namespace : Str) (pods : List Pod)
    → AreEndpoints namespace pods (map (endpoint namespace) pods)
unfolding endpoint
endpoints-AreEndpoints namespace [] = tt
endpoints-AreEndpoints namespace (p ∷ pods) = (refl, endpoints-AreEndpoints namespace pods)

AreEndpoints-unique :
    (namespace : Str) (pods : List Pod) (es : List Str)
    → AreEndpoints namespace pods es
    → map (endpoint namespace) pods ≡ es
unfolding endpoint
AreEndpoints-unique namespace [] [] h = refl
AreEndpoints-unique namespace [] (_ ∷ _) h = absurd h
AreEndpoints-unique namespace (_ ∷ _) [] h = absurd h
AreEndpoints-unique namespace (p ∷ pods) (e ∷ es) (same, h) =
    let rest = AreEndpoints-unique namespace pods es h in cc

cluster-IsMadeOf :
    (namespace name : Str) (pods : List Pod)
    → IsMadeOf namespace name pods (cluster_of_pods namespace name pods)
unfolding cluster_of_pods
cluster-IsMadeOf namespace name pods =
    (refl, refl, endpoints-AreEndpoints namespace pods, refl, refl, ground arith)

tested : (n : ℕ) (b : Bool) → (b ≡ true) ↔ (3 ≤ n) → leb 3 n ≡ b
tested n true (to, from) = let few = to refl in ground arith
tested n false (to, from) = elim (Bool-cases (leb 3 n)) [
  | inl many ↦ absurd (true-false (sym (from (ground arith))))
  | inr few ↦ few
]

IsMadeOf-unique :
    (namespace name : Str) (pods : List Pod) (c : ClusterInfo)
    → IsMadeOf namespace name pods c
    → cluster_of_pods namespace name pods ≡ c
unfolding cluster_of_pods
IsMadeOf-unique namespace name pods c (named, placed, reached, no_members, no_version, quorum) i =
    record {
      name = sym named i;
      namespace = sym placed i;
      endpoints = AreEndpoints-unique namespace pods c.endpoints reached i;
      members = sym no_members i;
      version = sym no_version i;
      has_quorum = tested (length pods) c.has_quorum quorum i;
    }

module _ (E : Env) (d : Discovery E) (namespace : Str) where
  abbrev pub listing : Str → E.State → Reply (List Pod) × E.State
  listing name = E.list_pods namespace (E.selector ((d.cluster_label_key, name) ∷ []))

  by_label_sound :
      (name : Str) (s : E.State) {c : ClusterInfo}
      → (discover_by_label E d namespace name s).0 ≡ ok c
      → (pods : List Pod) × ((listing name s).0 ≡ value pods)
        × (pods ≢ [])
        × IsMadeOf namespace name pods c
  unfolding discover_by_label
  by_label_sound name s {c} h = elim (Reply-cases (listing name s).0) [
    | inl ([], e) ↦ absurd (ground arith)
    | inl (p ∷ pods, e) ↦
        let made : cluster_of_pods namespace name (p ∷ pods) ≡ c = ground arith in
        (
          p ∷ pods,
          e,
          λ q. cc,
          subst (IsMadeOf namespace name (p ∷ pods)) made
              (cluster-IsMadeOf namespace name (p ∷ pods)),
        )
    | inr (x, e) ↦ absurd (ground arith)
  ]

  by_label_complete :
      (name : Str) (s : E.State) {c : ClusterInfo} (pods : List Pod)
      → (listing name s).0 ≡ value pods
      → pods ≢ []
      → IsMadeOf namespace name pods c
      → (discover_by_label E d namespace name s).0 ≡ ok c
  unfolding discover_by_label
  by_label_complete name s [] e some_pod made = absurd (some_pod refl)
  by_label_complete name s {c} (p ∷ pods) e some_pod made =
      let same = IsMadeOf-unique namespace name (p ∷ pods) c made in ground arith

  -- The PVC is there and has the cluster label, and these are the pods with that label.
  abbrev pub Finds : Str → E.State → ClusterInfo → Type 0
  Finds pvc_name s c =
      let looked = E.get_pvc namespace pvc_name s in
      (pvc : Pvc E.Quantity) × (name : Str) × (pods : List Pod) × (looked.0 ≡ value pvc)
      × (lookup d.cluster_label_key pvc.meta.labels ≡ some name)
      × ((listing name looked.1).0 ≡ value pods)
      × (pods ≢ [])
      × IsMadeOf namespace name pods c

  discover_cluster_sound :
      (pvc_name : Str) (s : E.State) (c : ClusterInfo)
      → (discover_cluster E d namespace pvc_name s).0 ≡ ok c
      → Finds pvc_name s c
  unfolding discover_cluster
  discover_cluster_sound pvc_name s c h = elim (Reply-cases (E.get_pvc namespace pvc_name s).0) [
    | inl (pvc, e) ↦ elim (Option-cases (lookup d.cluster_label_key pvc.meta.labels)) [
      | inl missing ↦ absurd (ground arith)
      | inr (name, labelled) ↦
          let (pods, listed, some_pod, made) =
            by_label_sound name (E.get_pvc namespace pvc_name s).1 (ground arith) in
          (pvc, name, pods, e, labelled, listed, some_pod, made)
    ]
    | inr (x, e) ↦ absurd (ground arith)
  ]

  discover_cluster_complete :
      (pvc_name : Str) (s : E.State) (c : ClusterInfo)
      → Finds pvc_name s c
      → (discover_cluster E d namespace pvc_name s).0 ≡ ok c
  unfolding discover_cluster
  discover_cluster_complete pvc_name s c (pvc, name, pods, e, labelled, listed, some_pod, made) =
      let found =
        by_label_complete name (E.get_pvc namespace pvc_name s).1 pods listed some_pod made in
      ground arith

  -- A cluster is found for a PVC exactly if the PVC is there and has the cluster label, the pods with
  -- that label can be listed, and there is one. The cluster is named by the label, has one endpoint
  -- for each of the pods, in order, and claims a quorum exactly if there are at least three.
  pub discover_cluster-ok_iff :
      (pvc_name : Str) (s : E.State) (c : ClusterInfo)
      → ((discover_cluster E d namespace pvc_name s).0 ≡ ok c) ↔ Finds pvc_name s c
  discover_cluster-ok_iff pvc_name s c =
      (discover_cluster_sound pvc_name s c, discover_cluster_complete pvc_name s c)

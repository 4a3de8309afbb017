-- ===== src/Controller/Checks/ReadOnly.antt =====
-- The checks of phases 1 to 5 only read.
use etcd_snapshot_driver.Common.{
  ℕ, suc, Str, lit, Option, none, some, List, [], ◌∷◌, wrapped, lib, Result, ok, err, panic, Act,
  ◌>>=◌, call_or, ◌≡◌, refl, arith,
}
use etcd_snapshot_driver.Common.Dict
use etcd_snapshot_driver.Env.{Env}
use etcd_snapshot_driver.Env.Frame.{
  Keeps, >>=-Keeps, call_or-Keeps, map_err-Keeps, reject_if-Keeps, ReadsKeep,
}
use etcd_snapshot_driver.Etcd.Health.ReadOnly.{validate_health-Keeps}
use etcd_snapshot_driver.Etcd.Discovery.{
  ClusterInfo, Discovery, label_of, discover_by_label, discover_cluster, validate_cluster_health,
}
use etcd_snapshot_driver.Controller.Checks.{
  VolumeInfo, Found, nothing_found, returned, check_pvc, validate_pvc_for_group, pvc_checked,
  validate_pvcs, discovered, found_healthy, fit_cluster, add_cluster, discover_volume,
  discover_volumes, check_volumes, parse_volumes, check_request,
}

module _ (E : Env) (P : E.State → Type 0) (K : ReadsKeep E P) where
  pub validate_pvc-Keeps : (ns name : Str) → Keeps P (validate_pvc_for_group E ns name)
  unfolding validate_pvc_for_group
  validate_pvc-Keeps ns name =
      >>=-Keeps P (call_or (E.get_pvc ns name) (λ e. wrapped (lit "PVC not found") (lib e)))
        (check_pvc E) (call_or-Keeps P (E.get_pvc ns name) _ (K.get_pvc ns name))
        (λ pvc s p. unfold check_pvc in (ground arith))

  pub validate_pvcs-Keeps : (i : ℕ) (vols : List VolumeInfo) → Keeps P (validate_pvcs E i vols)
  unfolding validate_pvcs
  validate_pvcs-Keeps i [] s p = p
  validate_pvcs-Keeps i (vol ∷ vols) s p =
      >>=-Keeps P (pvc_checked E i vol) (λ _. validate_pvcs E (suc i) vols)
        (map_err-Keeps P _ (validate_pvc_for_group E vol.namespace vol.name)
          (validate_pvc-Keeps vol.namespace vol.name))
        (λ _. validate_pvcs-Keeps (suc i) vols) s p

  module _ (d : Discovery E) where
    discover_by_label-Keeps : (ns name : Str) → Keeps P (discover_by_label E d ns name)
    unfolding discover_by_label
    discover_by_label-Keeps ns name s p =
        ground (arith, K.list_pods ns (E.selector ((d.cluster_label_key, name) ∷ [])) s p)

    pub discover_cluster-Keeps : (ns name : Str) → Keeps P (discover_cluster E d ns name)
    unfolding discover_cluster
    discover_cluster-Keeps ns name =
        >>=-Keeps P (call_or (E.get_pvc ns name) (λ e. wrapped (lit "failed to get PVC") (lib e)))
          (λ pvc. labelled (Dict.lookup d.cluster_label_key pvc.meta.labels))
          (call_or-Keeps P (E.get_pvc ns name) _ (K.get_pvc ns name))
          (λ pvc. labelled-Keeps (Dict.lookup d.cluster_label_key pvc.meta.labels))
      where
        labelled : Option Str → Act E.State ClusterInfo
        labelled label = label_of E d ns name label >>= discover_by_label E d ns

        labelled-Keeps : (label : Option Str) → Keeps P (labelled label)
        labelled-Keeps none s p = p
        labelled-Keeps (some cluster_name) s p = discover_by_label-Keeps ns cluster_name s p

    validate_cluster-Keeps : (info : ClusterInfo) → Keeps P (validate_cluster_health E d info)
    unfolding validate_cluster_health
    validate_cluster-Keeps info s p = go d.health_validator refl
      where
        go :
            (v : Option (Option E.TlsConfig))
            → d.health_validator ≡ v
            → P (validate_cluster_health E d info s).1
        go none e = rw (e, validate_cluster_health) (reject_if-Keeps P _ _ s p)
        go (some tls) e =
            rw (e, validate_cluster_health) (validate_health-Keeps E P K tls info.endpoints s p)

    pub discover_volume-Keeps :
        (i : ℕ) (vol : VolumeInfo) (f : Found) → Keeps P (discover_volume E d i vol f)
    unfolding discover_volume
    discover_volume-Keeps i vol f =
        >>=-Keeps P (discovered E d i vol) (fit_cluster E d i vol f)
          (map_err-Keeps P _ _ (discover_cluster-Keeps vol.namespace vol.name))
          (λ info.
            >>=-Keeps P (found_healthy E d i info) (λ _. returned E (add_cluster i vol info f))
              (map_err-Keeps P _ _ (validate_cluster-Keeps info)) (λ _ s p. p))

    discover_volumes-Keeps :
        (i : ℕ) (vols : List VolumeInfo) (f : Found) → Keeps P (discover_volumes E d i vols f)
    unfolding discover_volumes
    discover_volumes-Keeps i [] f s p = p
    discover_volumes-Keeps i (vol ∷ vols) f s p =
        >>=-Keeps P (discover_volume E d i vol f) (discover_volumes E d (suc i) vols)
          (discover_volume-Keeps i vol f) (discover_volumes-Keeps (suc i) vols) s p

    check_volumes-Keeps : (vols : List VolumeInfo) → Keeps P (check_volumes E d vols)
    check_volumes-Keeps vols =
        >>=-Keeps P (validate_pvcs E 0 vols) (λ _. discover_volumes E d 0 vols nothing_found)
          (validate_pvcs-Keeps 0 vols) (λ _. discover_volumes-Keeps 0 vols nothing_found)

    parsed-Keeps : (r : Result (List VolumeInfo)) → Keeps P (returned E r >>= check_volumes E d)
    parsed-Keeps (ok vols) s p = check_volumes-Keeps vols s p
    parsed-Keeps (err x) s p = p
    parsed-Keeps (panic x) s p = p

    -- Whatever property of the state the reading calls keep, the checks keep, however they end.
    pub check_request-Keeps : (name : Str) (ids : List Str) → Keeps P (check_request E d name ids)
    unfolding check_request
    check_request-Keeps name ids s p = ground (arith, parsed-Keeps (parse_volumes 0 ids) s p)

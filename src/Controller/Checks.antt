-- ===== src/Controller/Checks.antt =====
-- Phases 1 to 5 of `CreateVolumeGroupSnapshot`: the request, the volumes and their clusters.
pub mod Validation
pub mod ReadOnly
pub mod Guards
use etcd_snapshot_driver.Common.{
  ℕ, zero, suc, Str, lit, length, is_empty, str_eq, Bool, true, false, not, ◌||◌, Option, none,
  some, List, [], ◌∷◌, ◌++◌, ◌==◌, if◌then◌else◌, Error, errorf, wrapped, lib, status,
  invalid_argument, failed_precondition, internal, error_text, Result, ok, err, panic, Act, pure,
  throw, reject_if, call_or, map_err, ◌>>=◌, ◌>>◌,
}
use etcd_snapshot_driver.Common.Decimal.{itoa}
use etcd_snapshot_driver.Env.{Env}
use etcd_snapshot_driver.Kube.{Pvc}
use etcd_snapshot_driver.Volume.{parse_volume_id}
use etcd_snapshot_driver.Etcd.Discovery.{
  ClusterInfo, Discovery, discover_cluster, validate_cluster_health,
}

pub record VolumeInfo : Type 0 where
  pub namespace : Str
  pub name : Str
  pub original_id : Str

-- `status.Errorf(code, "text: %v", err)`, where the text may hold an index.
abbrev bad_volume : ℕ → Error → Error
bad_volume i e =
    status invalid_argument
      (lit "invalid source_volume_id[" ++ (itoa i ++ (lit "]: " ++ error_text e)))

abbrev pub cons_volume : Str → Str × Str → Result (List VolumeInfo) → Result (List VolumeInfo)
cons_volume id (ns, name) (ok vols) =
    ok (record { namespace = ns; name = name; original_id = id } ∷ vols)
cons_volume id _ (err e) = err e
cons_volume id _ (panic p) = panic p

-- Phase 2, from the volume with index `i` on.
unfoldable pub parse_volumes : ℕ → List Str → Result (List VolumeInfo)
parse_volumes i [] = ok []
parse_volumes i (id ∷ ids) =
    let rest = parse_volumes (suc i) ids in
    elim (parse_volume_id id) [
      | ok pair ↦ cons_volume id pair rest
      | err e ↦ err (bad_volume i e)
      | panic p ↦ panic p
    ]

-- A mode that allows writing.
abbrev is_write_mode : Str → Bool
is_write_mode mode = str_eq mode (lit "ReadWriteOnce") || str_eq mode (lit "ReadWriteMany")

unfoldable pub has_write_access : List Str → Bool
has_write_access [] = false
has_write_access (mode ∷ modes) = is_write_mode mode || has_write_access modes

-- The clusters found so far, and the name and the endpoints of the first.
pub record ClusterEntry : Type 0 where
  pub index : ℕ
  pub info : ClusterInfo
  pub volume_info : VolumeInfo

pub record Found : Type 0 where
  pub cluster_infos : List ClusterEntry
  pub first_cluster_name : Str
  pub first_cluster_endpoints : List Str

abbrev pub nothing_found : Found
nothing_found = record { cluster_infos = []; first_cluster_name = []; first_cluster_endpoints = [] }

-- The comparison with the first cluster, and the append.
unfoldable pub add_cluster : ℕ → VolumeInfo → ClusterInfo → Found → Result Found
add_cluster i vol info f =
    let entries = f.cluster_infos ++ record { index = i; info = info; volume_info = vol } ∷ [] in
    if i == 0
    then ok (record {
      cluster_infos = entries;
      first_cluster_name = info.name;
      first_cluster_endpoints = info.endpoints;
    })
    else if not (str_eq info.name f.first_cluster_name)
    then err (
        status failed_precondition (
          lit "all PVCs must belong to the same ETCD cluster: expected "
          ++ (f.first_cluster_name ++ (lit ", got " ++ info.name))))
    else if not (length info.endpoints == length f.first_cluster_endpoints)
    then err (
        status failed_precondition
          (lit "all PVCs must belong to the same ETCD cluster: endpoints differ"))
    else ok (record f { cluster_infos = entries })

abbrev at_volume : Str → ℕ → Error → Str
at_volume text i e = text ++ (itoa i ++ (lit ": " ++ error_text e))

module _ (E : Env) where
  abbrev pub returned : {A : Type 0} → Result A → Act E.State A
  returned r s = (r, s)

  -- The checks on the PVC that the API returned.
  unfoldable pub check_pvc : Pvc E.Quantity → Act E.State Unit
  unfolding has_write_access
  check_pvc pvc = do
    reject_if (not (str_eq pvc.phase (lit "Bound")))
        (errorf (lit "PVC not bound, current phase: " ++ pvc.phase))
    reject_if (not (has_write_access pvc.access_modes))
        (errorf (lit "PVC does not have write access mode"))

  unfoldable pub validate_pvc_for_group : Str → Str → Act E.State Unit
  unfolding check_pvc
  validate_pvc_for_group namespace name = do
    pvc ← call_or (E.get_pvc namespace name) (λ e. wrapped (lit "PVC not found") (lib e))
    check_pvc pvc

  abbrev pub pvc_checked : ℕ → VolumeInfo → Act E.State Unit
  pvc_checked i vol =
      map_err
        (λ e. status failed_precondition (at_volume (lit "PVC validation failed for volume ") i e))
        (validate_pvc_for_group vol.namespace vol.name)

  -- Phase 3.
  unfoldable pub validate_pvcs : ℕ → List VolumeInfo → Act E.State Unit
  unfolding validate_pvc_for_group
  validate_pvcs i [] = pure tt
  validate_pvcs i (vol ∷ vols) = do pvc_checked i vol; validate_pvcs (suc i) vols

  module _ (d : Discovery E) where
    abbrev pub discovered : ℕ → VolumeInfo → Act E.State ClusterInfo
    discovered i vol =
        map_err (λ e. status internal (at_volume (lit "ETCD discovery failed for volume ") i e))
          (discover_cluster E d vol.namespace vol.name)

    abbrev pub found_healthy : ℕ → ClusterInfo → Act E.State Unit
    found_healthy i info =
        map_err
          (λ e.
            status failed_precondition
              (at_volume (lit "ETCD cluster health validation failed for volume ") i e))
          (validate_cluster_health E d info)

    abbrev pub fit_cluster : ℕ → VolumeInfo → Found → ClusterInfo → Act E.State Found
    fit_cluster i vol f info = do found_healthy i info; returned (add_cluster i vol info f)

    -- One round of phases 4 and 5.
    unfoldable pub discover_volume : ℕ → VolumeInfo → Found → Act E.State Found
    unfolding add_cluster
    discover_volume i vol f = discovered i vol >>= fit_cluster i vol f

    unfoldable pub discover_volumes : ℕ → List VolumeInfo → Found → Act E.State Found
    unfolding discover_volume
    discover_volumes i [] f = pure f
    discover_volumes i (vol ∷ vols) f = discover_volume i vol f >>= discover_volumes (suc i) vols

    abbrev pub check_volumes : List VolumeInfo → Act E.State Found
    check_volumes volumes = do validate_pvcs 0 volumes; discover_volumes 0 volumes nothing_found

    -- Phases 1 to 5.
    unfoldable pub check_request : Str → List Str → Act E.State Found
    unfolding parse_volumes validate_pvcs discover_volumes
    check_request name source_volume_ids = do
      reject_if (is_empty name) (status invalid_argument (lit "snapshot name required"))
      reject_if (length source_volume_ids == 0)
          (status invalid_argument (lit "source_volume_ids required"))
      volumes ← returned (parse_volumes 0 source_volume_ids)
      check_volumes volumes

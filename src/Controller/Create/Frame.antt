-- ===== src/Controller/Create/Frame.antt =====
-- What a creation leaves as it was.
use etcd_snapshot_driver.Common.{
  Str, Option, none, some, List, [], ◌∷◌, Reply-cases, Error, Result, ok, err, panic, ◌>>=◌, ◌≡◌,
  ◌≢◌, refl, inl, inr, arith,
}
use etcd_snapshot_driver.Env.{Env}
use etcd_snapshot_driver.Env.Frame.{Keeps, >>=-Keeps, map_err-Keeps, ReadsKeep}
use etcd_snapshot_driver.Kube.{Pvc, Job}
use etcd_snapshot_driver.Job.Template.{generate_snapshot_save_job}
use etcd_snapshot_driver.Job.Executor.Frame.{execute_snapshot_job-keeps}
use etcd_snapshot_driver.Provisioner.{
  Provisioner, snapshot_pvc_name, snapshot_pvc, create_snapshot_pvc, ensure_snapshot_pvc,
}
use etcd_snapshot_driver.Snapshot.{SnapshotMetadata, GroupSnapshotMetadata, Codecs}
use etcd_snapshot_driver.Snapshot.Manager.{store_snapshot_metadata, store_group_snapshot_metadata}
use etcd_snapshot_driver.Controller.Types.{
  ControllerConfig, provisioner, CreateRequest, metadata_namespace, stamped,
}
use etcd_snapshot_driver.Controller.Checks.{ClusterEntry, Found, check_request}
use etcd_snapshot_driver.Controller.Checks.ReadOnly.{check_request-Keeps}
use etcd_snapshot_driver.Controller.Create.{
  Taken, single_metadata, group_metadata, first_of_list, check_outcome, discovery, save_config,
  run_save, prepare_pvc, take_snapshot, record_snapshot, after_checks, create_volume_group_snapshot,
}

listed : (x : Str) (xs : List Str) → x ∷ xs ≢ []
listed x xs e = cc

module _ (E : Env) (P : E.State → Type 0) (K : ReadsKeep E P)
    (creates_pvc : (ns : Str) (pvc : Pvc E.Quantity) (s : E.State)
      → P s
      → P (E.create_pvc ns pvc s).1)
    (creates_job : (ns : Str) (j : Job E.Quantity) (s : E.State)
      → P s
      → P (E.create_job ns j s).1) where
  create_pvc-Keeps : (p : Provisioner) (ns : Str) → Keeps P (create_snapshot_pvc E p ns)
  unfolding create_snapshot_pvc
  create_pvc-Keeps p ns s h = elim (Reply-cases (E.parse_quantity p.pvc_size)) [
    | inl (q, e) ↦
        rw (e, create_snapshot_pvc)
          (let made = creates_pvc ns (snapshot_pvc E p ns q) s h in ground arith)
    | inr (x, e) ↦ rw (e, create_snapshot_pvc) h
  ]

  ensure_pvc-Keeps : (p : Provisioner) (ns : Str) → Keeps P (ensure_snapshot_pvc E p ns)
  unfolding ensure_snapshot_pvc
  ensure_pvc-Keeps p ns s h =
      let read_pvc = K.get_pvc ns snapshot_pvc_name s h in
      ground (arith, create_pvc-Keeps p ns (E.get_pvc ns snapshot_pvc_name s).1 read_pvc)

  first-Keeps : {A : Type 0} (xs : List A) → Keeps P (first_of_list xs)
  first-Keeps [] s h = h
  first-Keeps (x ∷ xs) s h = h

  outcome-Keeps : (o : Option Error) → Keeps P (check_outcome o)
  outcome-Keeps none s h = h
  outcome-Keeps (some e) s h = h

  module _ (cfg : ControllerConfig) where
    run_save-Keeps :
        (id : Str) (first : ClusterEntry) (pvc_name : Str)
        → Keeps P (run_save E cfg id first pvc_name)
    unfolding run_save
    run_save-Keeps id first pvc_name s h =
        let (t, s₁) = E.now s in
        go (generate_snapshot_save_job E (save_config cfg (stamped id t) pvc_name first)) refl
      where
        go :
            (r : Result (Job E.Quantity))
            → generate_snapshot_save_job E (save_config cfg (stamped id (E.now s).0) pvc_name first)
              ≡ r
            → P (run_save E cfg id first pvc_name s).1
        go (ok j) e =
            let kept =
              execute_snapshot_job-keeps E P K j cfg.snapshot_timeout (E.now s).1 creates_job
                (K.now s h) in
            rw (e, run_save) (ground arith)
        go (err x) e = rw (e, run_save) (K.now s h)
        go (panic x) e = rw (e, run_save) (K.now s h)

    pub take_snapshot-Keeps : (id : Str) (f : Found) → Keeps P (take_snapshot E cfg id f)
    unfolding take_snapshot
    take_snapshot-Keeps id f =
        >>=-Keeps P (first_of_list f.cluster_infos)
          (λ first. prepare_pvc E cfg first >>= run_save E cfg id first)
          (first-Keeps f.cluster_infos)
          (λ first.
            >>=-Keeps P (prepare_pvc E cfg first) (run_save E cfg id first)
              (map_err-Keeps P _
                (ensure_snapshot_pvc E (provisioner cfg) first.volume_info.namespace)
                (ensure_pvc-Keeps (provisioner cfg) first.volume_info.namespace))
              (run_save-Keeps id first))

    module _ (cs : Codecs)
        (stores : (m : SnapshotMetadata)
          → Keeps P (store_snapshot_metadata E metadata_namespace cs m))
        (stores_group : (g : GroupSnapshotMetadata)
          → g.source_volume_ids ≢ []
          → Keeps P (store_group_snapshot_metadata E metadata_namespace cs g)) where
      record_snapshot-Keeps :
          (id : Str) (ids : List Str) (cluster : Str) (taken : Taken)
          → Keeps P (record_snapshot E cfg cs id ids cluster taken)
      unfolding record_snapshot
      record_snapshot-Keeps id [] cluster taken s h = h
      record_snapshot-Keeps id (source ∷ rest) cluster taken s h =
          let single = single_metadata source cluster taken (E.now s).0 in
          let s₂ = (store_snapshot_metadata E metadata_namespace cs single (E.now s).1).1 in
          let h₂ = stores single (E.now s).1 (K.now s h) in
          let group = group_metadata id (source ∷ rest) cluster taken (E.now s₂).0 in
          let s₄ = (store_group_snapshot_metadata E metadata_namespace cs group (E.now s₂).1).1 in
          let h₄ = stores_group group (listed source rest) (E.now s₂).1 (K.now s₂ h₂) in
          let h₆ = K.now (E.now s₄).1 (K.now s₄ h₄) in ground arith

      -- A creation keeps whatever the reading calls, the creation of a PVC and of a job, and the two
      -- writes of metadata keep, however it ends.
      pub create-Keeps : (req : CreateRequest) → Keeps P (create_volume_group_snapshot E cfg cs req)
      unfolding create_volume_group_snapshot
      create-Keeps req s h =
          let id = stamped req.name (E.now s).0 in
          >>=-Keeps P (check_request E (discovery E cfg) req.name req.source_volume_ids)
            (after_checks E cfg cs req id)
            (check_request-Keeps E P K (discovery E cfg) req.name req.source_volume_ids)
            (λ f.
              >>=-Keeps P (take_snapshot E cfg id f)
                (record_snapshot E cfg cs id req.source_volume_ids f.first_cluster_name)
                (take_snapshot-Keeps id f)
                (record_snapshot-Keeps id req.source_volume_ids f.first_cluster_name))
            (E.now s).1 (K.now s h)

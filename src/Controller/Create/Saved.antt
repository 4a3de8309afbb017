-- ===== src/Controller/Create/Saved.antt =====
-- What a creation that succeeds has seen of its job.
use etcd_snapshot_driver.Common.{
  Str, none, some, Option, List, [], ◌∷◌, map, Error, Result, ok, err, panic, pure, >>=-eq-ok, ◌>>◌,
  ◌≡◌, refl, arith,
}
use etcd_snapshot_driver.Env.{Env}
use etcd_snapshot_driver.Kube.{Job}
use etcd_snapshot_driver.Job.Template.{generate_snapshot_save_job}
use etcd_snapshot_driver.Job.Template.Script.{
  claims, commands, Saves, MountsClaim, file_of, tls_arguments, build-save_script, save_job_lem,
  save_job-MountsClaim,
}
use etcd_snapshot_driver.Job.Executor.{execute_snapshot_job}
use etcd_snapshot_driver.Job.Executor.Success.{
  SeenDone, IsStarted, execute_snapshot_job-success_iff,
}
use etcd_snapshot_driver.Snapshot.{Codecs}
use etcd_snapshot_driver.Controller.Types.{
  ControllerConfig, CreateRequest, Snapshot, GroupSnapshot, stamped,
}
use etcd_snapshot_driver.Controller.Checks.{ClusterEntry, Found, check_request}
use etcd_snapshot_driver.Controller.Create.{
  Taken, check_outcome, save_config, discovery, run_save, prepare_pvc, take_snapshot,
  record_snapshot, after_checks, create_volume_group_snapshot,
}

same_taken : {a b : Taken} → ◌≡◌ {A = Result Taken} (ok a) (ok b) → a ≡ b
same_taken e = cc

-- The flags for the TLS files that are configured.
abbrev pub arguments : ControllerConfig → Str
arguments cfg =
    tls_arguments cfg.etcd_tls_enabled cfg.etcd_ca_path cfg.etcd_client_cert_path
      cfg.etcd_client_key_path

-- What the save job of a snapshot does.
pub save_config_job :
    (E : Env) (cfg : ControllerConfig) (id pvc_name : Str) (first : ClusterEntry)
    {j : Job E.Quantity}
    → generate_snapshot_save_job E (save_config cfg id pvc_name first) ≡ ok j
    → (j.meta.namespace ≡ first.volume_info.namespace)
      × (claims j.template.volumes ≡ pvc_name ∷ [])
      × MountsClaim pvc_name j.template
      × Saves (file_of id) first.info.endpoints (arguments cfg) (commands j.template)
unfolding save_config
save_config_job E cfg id pvc_name first made =
    let config = save_config cfg id pvc_name first in
    let (ns, claim, script) = save_job_lem E config made in
    (ns, claim, save_job-MountsClaim E config made, rw (← build-save_script config) script)

module _ (E : Env) (cfg : ControllerConfig) where
  -- The save job of the snapshot, which saves it to the file of its ID on the claim, was started, and
  -- was seen to succeed.
  abbrev pub IsSaved : ClusterEntry → Str → Type 0
  IsSaved first id =
      (pvc_name : Str) × (j : Job E.Quantity) × (j' : Job E.Quantity) × (s : E.State)
      × (generate_snapshot_save_job E (save_config cfg id pvc_name first) ≡ ok j)
      × (claims j.template.volumes ≡ pvc_name ∷ [])
      × MountsClaim pvc_name j.template
      × Saves (file_of id) first.info.endpoints (arguments cfg) (commands j.template)
      × (let (reply, s') = E.create_job j.meta.namespace j s in
          IsStarted E j reply j' × SeenDone E j' cfg.snapshot_timeout s')

  saved_as :
      (made : Taken) {taken : Taken} (o : Option Error) (s : E.State)
      → ((check_outcome o >> pure made) s).0 ≡ ok taken
      → (o ≡ none) × (made ≡ taken)
  saved_as made none s h = (refl, same_taken h)
  saved_as made (some e) s h = cc

  run_save-IsSaved :
      (gid : Str) (first : ClusterEntry) (pvc_name : Str) (s : E.State) {taken : Taken}
      → (run_save E cfg gid first pvc_name s).0 ≡ ok taken
      → IsSaved first taken.snapshot_id
  unfolding run_save
  run_save-IsSaved gid first pvc_name s {taken} h =
      go (generate_snapshot_save_job E (save_config cfg id pvc_name first)) refl
    where
      id : Str
      id = stamped gid (E.now s).0

      go :
          (r : Result (Job E.Quantity))
          → generate_snapshot_save_job E (save_config cfg id pvc_name first) ≡ r
          → IsSaved first taken.snapshot_id
      go (ok j) e =
          let s₁ = (E.now s).1 in
          let made : Taken = record {
            snapshot_id = id;
            pvc_name = pvc_name;
            namespace = first.volume_info.namespace;
          } in
          let (done, same) =
            saved_as made (execute_snapshot_job E j cfg.snapshot_timeout s₁).0.1
              (execute_snapshot_job E j cfg.snapshot_timeout s₁).1 (rw (e, run_save) at h) in
          let (j', started, seen) =
            (execute_snapshot_job-success_iff E j cfg.snapshot_timeout s₁).0 done in
          let made_as : generate_snapshot_save_job E
                (save_config cfg taken.snapshot_id pvc_name first)
              ≡ ok j =
            rw (← same) e in
          let (_, claimed, mounts, saves) =
            save_config_job E cfg taken.snapshot_id pvc_name first made_as in
          (pvc_name, j, j', (E.now s₁).1, made_as, claimed, mounts, saves, (started, seen))
      go (err x) e = cc (rw (e, run_save) at h)
      go (panic x) e = cc (rw (e, run_save) at h)

  take_snapshot-IsSaved :
      (gid : Str) (f : Found) (s : E.State) {taken : Taken}
      → (take_snapshot E cfg gid f s).0 ≡ ok taken
      → (first : ClusterEntry) × (rest : List ClusterEntry) × (f.cluster_infos ≡ first ∷ rest)
        × IsSaved first taken.snapshot_id
  unfolding take_snapshot
  take_snapshot-IsSaved gid f s {taken} h = go f.cluster_infos refl
    where
      go :
          (cs : List ClusterEntry)
          → f.cluster_infos ≡ cs
          → (first : ClusterEntry) × (rest : List ClusterEntry) × (f.cluster_infos ≡ first ∷ rest)
            × IsSaved first taken.snapshot_id
      go [] e = cc (rw (e, take_snapshot) at h)
      go (first ∷ rest) e =
          let (pvc_name, _, saved) =
            >>=-eq-ok (prepare_pvc E cfg first) (run_save E cfg gid first) s
              (rw (e, take_snapshot) at h) in
          (first, rest, e, run_save-IsSaved gid first pvc_name (prepare_pvc E cfg first s).1 saved)

  module _ (cs : Codecs) where
    -- The snapshot that is reported.
    reported :
        (id : Str) (ids : List Str) (cluster : Str) (taken : Taken) (s : E.State)
        {g : GroupSnapshot}
        → (record_snapshot E cfg cs id ids cluster taken s).0 ≡ ok g
        → map (λ (x : Snapshot). x.snapshot_id) g.snapshots ≡ taken.snapshot_id ∷ []
    unfolding record_snapshot
    reported id [] cluster taken s h = cc
    reported id (source ∷ rest) cluster taken s h = ground arith

    -- A creation that succeeds reports one snapshot. The save job of that snapshot, for the first of the
    -- clusters that the checks found, mounts one claim at /snapshots and runs one script: it saves from
    -- the endpoints of that cluster to the file /snapshots/ID.db of the snapshot's ID, and then looks at
    -- this file. The job was made or was there already; and within the timeout a look at the job showed
    -- a success, and every look before it showed neither a success nor a failure.
    pub create-IsSaved :
        (req : CreateRequest) (s : E.State) {g : GroupSnapshot}
        → (create_volume_group_snapshot E cfg cs req s).0 ≡ ok g
        → (f : Found) × (first : ClusterEntry) × (rest : List ClusterEntry) × (id : Str)
          × ((check_request E (discovery E cfg) req.name req.source_volume_ids (E.now s).1).0
              ≡ ok f)
          × (f.cluster_infos ≡ first ∷ rest)
          × (map (λ (x : Snapshot). x.snapshot_id) g.snapshots ≡ id ∷ [])
          × IsSaved first id
    unfolding create_volume_group_snapshot
    create-IsSaved req s {g} h =
        let id = stamped req.name (E.now s).0 in
        let m = check_request E (discovery E cfg) req.name req.source_volume_ids in
        let (f, checked, rest₁) = >>=-eq-ok m (after_checks E cfg cs req id) (E.now s).1 h in
        let (taken, took, recorded) =
          >>=-eq-ok (take_snapshot E cfg id f)
            (record_snapshot E cfg cs id req.source_volume_ids f.first_cluster_name)
            (m (E.now s).1).1 rest₁ in
        let (first, rest, all, saved) = take_snapshot-IsSaved id f (m (E.now s).1).1 took in
        (
          f,
          first,
          rest,
          taken.snapshot_id,
          checked,
          all,
          reported id req.source_volume_ids f.first_cluster_name taken _ recorded,
          saved,
        )

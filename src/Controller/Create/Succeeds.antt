-- ===== src/Controller/Create/Succeeds.antt =====
-- When a creation succeeds.
use etcd_snapshot_driver.Common.{
  Str, false, none, some, Option, List, [], ◌∷◌, Error, Result, ok, err, panic, is_panic, pure,
  >>=-ok, >>=-eq-ok, ◌>>◌, ◌≡◌, ◌≢◌, ◌↔◌, refl, ap, ◌∙◌, arith,
}
use etcd_snapshot_driver.Env.{Env}
use etcd_snapshot_driver.Kube.{Job}
use etcd_snapshot_driver.Job.Template.{generate_snapshot_save_job}
use etcd_snapshot_driver.Job.Executor.{execute_snapshot_job}
use etcd_snapshot_driver.Job.Executor.Success.{
  SeenDone, IsStarted, execute_snapshot_job-success_iff,
}
use etcd_snapshot_driver.Snapshot.{SnapshotMetadata, GroupSnapshotMetadata, Codecs}
use etcd_snapshot_driver.Snapshot.Manager.{
  single_kind, group_kind, store_snapshot_metadata, store_group_snapshot_metadata,
}
use etcd_snapshot_driver.Snapshot.Manager.Ends.{store_ends}
use etcd_snapshot_driver.Provisioner.{ensure_snapshot_pvc}
use etcd_snapshot_driver.Controller.Types.{
  ControllerConfig, provisioner, CreateRequest, metadata_namespace, stamped,
}
use etcd_snapshot_driver.Controller.Checks.{ClusterEntry, Found, check_request}
use etcd_snapshot_driver.Controller.Checks.Validation.{check_request-ok}
use etcd_snapshot_driver.Controller.Create.{
  Taken, single_metadata, group_metadata, group_answer, check_outcome, save_config, discovery,
  run_save, prepare_pvc, take_snapshot, record_snapshot, after_checks, create_volume_group_snapshot,
}

-- A call that answers.
abbrev pub Answered : {S A : Type 0} → Result A × S → Type 0
Answered {A = A} p = (a : A) × (p.0 ≡ ok a)

same_ok : {A : Type 0} {a b : A} → ◌≡◌ {A = Result A} (ok a) (ok b) → a ≡ b
same_ok e = cc

module _ (E : Env) (cfg : ControllerConfig) where
  -- The save job is generated, made or there already, and seen to succeed within the timeout.
  abbrev pub JobSucceeds : Str → ClusterEntry → Str → E.State → Type 0
  JobSucceeds gid first pvc_name s =
      let (t, s₁) = E.now s in
      (j : Job E.Quantity) × (j' : Job E.Quantity) × (generate_snapshot_save_job E
          (save_config cfg (stamped gid t) pvc_name first)
        ≡ ok j)
      × (let (reply, s₂) = E.create_job j.meta.namespace j (E.now s₁).1 in
          IsStarted E j reply j' × SeenDone E j' cfg.snapshot_timeout s₂)

  outcome_iff :
      (made : Taken) (o : Option Error) (s : E.State)
      → Answered ((check_outcome o >> pure made) s) ↔ (o ≡ none)
  outcome_iff made none s = (λ p. refl, λ e. (made, refl))
  outcome_iff made (some x) s = (λ (a, e). cc, λ e. cc)

  run_save-ok_iff :
      (gid : Str) (first : ClusterEntry) (pvc_name : Str) (s : E.State)
      → Answered (run_save E cfg gid first pvc_name s) ↔ JobSucceeds gid first pvc_name s
  unfolding run_save
  run_save-ok_iff gid first pvc_name s =
      go (generate_snapshot_save_job E (save_config cfg id pvc_name first)) refl
    where
      id : Str
      id = stamped gid (E.now s).0

      s₁ : E.State
      s₁ = (E.now s).1

      made : Taken
      made = record {
        snapshot_id = id;
        pvc_name = pvc_name;
        namespace = first.volume_info.namespace;
      }

      go :
          (r : Result (Job E.Quantity))
          → generate_snapshot_save_job E (save_config cfg id pvc_name first) ≡ r
          → Answered (run_save E cfg gid first pvc_name s) ↔ JobSucceeds gid first pvc_name s
      go (ok j) e =
          let (o, s₃) = execute_snapshot_job E j cfg.snapshot_timeout s₁ in
          let (ends, back) = outcome_iff made o.1 s₃ in
          let (run, return) = execute_snapshot_job-success_iff E j cfg.snapshot_timeout s₁ in
          rw (e, run_save)
            (
              λ h. let (j', started, seen) = run (ends h) in (j, j', refl, (started, seen)),
              λ (k, j', same, p).
                  let (started, seen) = rw (← same_ok same) at p in
                  back (return (j', started, seen)),
            )
      go (err x) e = rw (e, run_save) (λ (a, h). cc, λ (k, j', same, _). cc)
      go (panic x) e = rw (e, run_save) (λ (a, h). cc, λ (k, j', same, _). cc)

  -- The PVC for snapshots is there, and the job succeeds.
  abbrev pub Takes : Str → List ClusterEntry → E.State → Type 0
  Takes gid [] s = ⊥
  Takes gid (first ∷ _) s =
      let (pvc, s₁) = ensure_snapshot_pvc E (provisioner cfg) first.volume_info.namespace s in
      (pvc_name : Str) × (pvc ≡ ok pvc_name) × JobSucceeds gid first pvc_name s₁

  prepared_iff :
      (first : ClusterEntry) (s : E.State) (pvc_name : Str)
      → ((prepare_pvc E cfg first s).0 ≡ ok pvc_name)
        ↔ ((ensure_snapshot_pvc E (provisioner cfg) first.volume_info.namespace s).0 ≡ ok pvc_name)
  prepared_iff first s pvc_name = (λ h. ground arith, λ h. ground arith)

  prepared_state :
      (first : ClusterEntry) (s : E.State)
      → (prepare_pvc E cfg first s).1
        ≡ (ensure_snapshot_pvc E (provisioner cfg) first.volume_info.namespace s).1
  prepared_state first s = ground arith

  take_snapshot-ok_iff :
      (gid : Str) (f : Found) (s : E.State)
      → Answered (take_snapshot E cfg gid f s) ↔ Takes gid f.cluster_infos s
  unfolding take_snapshot
  take_snapshot-ok_iff gid f s = go f.cluster_infos refl
    where
      go :
          (cs : List ClusterEntry)
          → f.cluster_infos ≡ cs
          → Answered (take_snapshot E cfg gid f s) ↔ Takes gid cs s
      go [] e = rw (e, take_snapshot) (λ (a, h). cc, λ h. absurd h)
      go (first ∷ rest) e =
          rw (e, take_snapshot)
            (
              λ (taken, h).
                  let (pvc_name, prepared, saved) =
                    >>=-eq-ok (prepare_pvc E cfg first) (run_save E cfg gid first) s h in
                  (
                    pvc_name,
                    (prepared_iff first s pvc_name).0 prepared,
                    (run_save-ok_iff gid first pvc_name _).0
                        (taken, rw (prepared_state first s) at saved),
                  ),
              λ (pvc_name, ensured, runs).
                  let prepared = (prepared_iff first s pvc_name).1 ensured in
                  let (taken, saved) = (run_save-ok_iff gid first pvc_name _).1 runs in
                  (
                    taken,
                    ap (λ r. r.0)
                          (>>=-ok (prepare_pvc E cfg first) (run_save E cfg gid first) s prepared)
                        ∙ ap (λ u. (run_save E cfg gid first pvc_name u).0) (prepared_state first s)
                        ∙ saved,
                  ),
            )

  module _ (cs : Codecs) where
    single_logged :
        (d : SnapshotMetadata) (s : E.State)
        → is_panic (store_snapshot_metadata E metadata_namespace cs d s).0 ≡ false
    unfolding store_snapshot_metadata
    single_logged d s = store_ends E metadata_namespace cs.single single_kind d.snapshot_id d s

    group_logged :
        (d : GroupSnapshotMetadata) (s : E.State)
        → is_panic (store_group_snapshot_metadata E metadata_namespace cs d s).0 ≡ false
    unfolding store_group_snapshot_metadata
    group_logged d s = store_ends E metadata_namespace cs.group group_kind d.group_snapshot_id d s

    -- The metadata may fail to be stored; that is logged only.
    record_answers :
        (id : Str) (ids : List Str) (cluster : Str) (taken : Taken) (s : E.State)
        → ids ≢ []
        → Answered (record_snapshot E cfg cs id ids cluster taken s)
    record_answers id [] cluster taken s some_ids = absurd (some_ids refl)
    record_answers id (source ∷ rest) cluster taken s some_ids =
        let single = single_metadata source cluster taken (E.now s).0 in
        let s₂ = (store_snapshot_metadata E metadata_namespace cs single (E.now s).1).1 in
        let group = group_metadata id (source ∷ rest) cluster taken (E.now s₂).0 in
        let s₄ = (store_group_snapshot_metadata E metadata_namespace cs group (E.now s₂).1).1 in
        (
          group_answer id source taken (E.now s₄).0 (E.now (E.now s₄).1).0,
          unfold record_snapshot in
              ground (arith, single_logged single (E.now s).1, group_logged group (E.now s₂).1),
        )

    -- A creation succeeds exactly if the checks pass, the PVC for snapshots is there or is made, the save
    -- job is generated, the API makes it or says that it exists already, and within the timeout a look at
    -- it shows a success and every look before that shows neither a success nor a failure. Whether the
    -- metadata can be stored does not matter.
    pub create-ok_iff :
        (req : CreateRequest) (s : E.State)
        → Answered (create_volume_group_snapshot E cfg cs req s) ↔ (
            let (t, s₁) = E.now s in
            let (checked, s₂) =
              check_request E (discovery E cfg) req.name req.source_volume_ids s₁ in
            (f : Found) × (checked ≡ ok f) × Takes (stamped req.name t) f.cluster_infos s₂)
    unfolding create_volume_group_snapshot
    create-ok_iff req s =
        let id = stamped req.name (E.now s).0 in
        let m = check_request E (discovery E cfg) req.name req.source_volume_ids in
        let s₂ = (m (E.now s).1).1 in
        (
          λ (g, h).
              let (f, checked, after) = >>=-eq-ok m (after_checks E cfg cs req id) (E.now s).1 h in
              let (taken, took, _) =
                >>=-eq-ok (take_snapshot E cfg id f)
                  (record_snapshot E cfg cs id req.source_volume_ids f.first_cluster_name) s₂
                  after in
              (f, checked, (take_snapshot-ok_iff id f s₂).0 (taken, took)),
          λ (f, checked, takes).
              let (taken, took) = (take_snapshot-ok_iff id f s₂).1 takes in
              let recording =
                record_snapshot E cfg cs id req.source_volume_ids f.first_cluster_name in
              let (_, some_ids, _, _) =
                check_request-ok E (discovery E cfg) req.name req.source_volume_ids (E.now s).1
                  checked in
              let (g, answered) =
                record_answers id req.source_volume_ids f.first_cluster_name taken
                  (take_snapshot E cfg id f s₂).1 some_ids in
              (
                g,
                ap (λ r. r.0) (>>=-ok m (after_checks E cfg cs req id) (E.now s).1 checked)
                    ∙ ap (λ r. r.0) (>>=-ok (take_snapshot E cfg id f) recording s₂ took)
                    ∙ answered,
              ),
        )

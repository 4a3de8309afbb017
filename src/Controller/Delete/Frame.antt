-- ===== src/Controller/Delete/Frame.antt =====
-- What a deletion leaves as it was.
use etcd_snapshot_driver.Common.{
  Str, lit, [], ◌∷◌, none, some, Option, pos, Error, wrapped, lib, Result, ok, err, panic, ◌>>=◌,
  logged, read, call_or, ◌≡◌, refl, arith,
}
use etcd_snapshot_driver.Env.{Env}
use etcd_snapshot_driver.Env.Frame.{
  Keeps, >>=-Keeps, call_or-Keeps, map_err-Keeps, logged-Keeps, ReadsKeep,
}
use etcd_snapshot_driver.Kube.{Job}
use etcd_snapshot_driver.Job.Executor.{execute_snapshot_job}
use etcd_snapshot_driver.Job.Executor.Frame.{execute_snapshot_job-keeps}
use etcd_snapshot_driver.Snapshot.{Codecs, SnapshotMetadata, GroupSnapshotMetadata}
use etcd_snapshot_driver.Snapshot.Manager.{
  single_kind, group_kind, retrieve, delete_entry, retrieve_snapshot_metadata,
  delete_snapshot_metadata, retrieve_group_snapshot_metadata, delete_group_snapshot_metadata,
}
use etcd_snapshot_driver.Controller.Types.{metadata_namespace}
use etcd_snapshot_driver.Controller.Delete.{
  generated, job_run, metadata_deleted, job_done, check_cleanup, run_cleanup, cleanup_snapshot,
  remove_group, delete_known, delete_volume_group_snapshot,
}

check_cleanup_state : {S : Type 0} (o : Option Error) (s : S) → (check_cleanup o s).1 ≡ s
check_cleanup_state none s = refl
check_cleanup_state (some e) s = refl

module _ (E : Env) (P : E.State → Type 0) (K : ReadsKeep E P)
    (creates_job : (ns : Str) (j : Job E.Quantity) (s : E.State) → P s → P (E.create_job ns j s).1)
    (cs : Codecs) where
  pub job_run-Keeps : (ns : Str) (j : Job E.Quantity) → Keeps P (job_run E cs ns j)
  job_run-Keeps ns j =
      >>=-Keeps P
        (call_or (E.create_job ns j) (λ e. wrapped (lit "failed to create cleanup job") (lib e)))
        (λ made. read (execute_snapshot_job E made (pos 60000000000)) >>= λ o. check_cleanup o.1)
        (call_or-Keeps P (E.create_job ns j) _ (creates_job ns j))
        (λ made s p.
          rw
            (check_cleanup_state (execute_snapshot_job E made (pos 60000000000) s).0.1
              (execute_snapshot_job E made (pos 60000000000) s).1)
            (execute_snapshot_job-keeps E P K made (pos 60000000000) s creates_job p))

  module _ (runs : (id : Str) (d : SnapshotMetadata) → Keeps P (run_cleanup E cs id d)) where
    pub cleanup_runs-Keeps : (id : Str) → Keeps P (cleanup_snapshot E cs id)
    unfolding cleanup_snapshot retrieve_snapshot_metadata retrieve
    cleanup_runs-Keeps id s p = go (retrieve_snapshot_metadata E metadata_namespace cs id s).0 refl
      where
        kept : P (retrieve_snapshot_metadata E metadata_namespace cs id s).1
        kept =
            let seen = K.get_config_map metadata_namespace single_kind.config_map_name s p in
            ground arith

        go :
            (r : Result SnapshotMetadata)
            → (retrieve_snapshot_metadata E metadata_namespace cs id s).0 ≡ r
            → P (cleanup_snapshot E cs id s).1
        go (ok d) e = rw (e, cleanup_snapshot) (runs id d _ kept)
        go (err x) e = rw (e, cleanup_snapshot) kept
        go (panic x) e = rw (e, cleanup_snapshot) kept

    module _
        (deletes_group : (key : Str)
          → Keeps P (delete_entry E metadata_namespace group_kind key)) where
      remove_group-Keeps : (id : Str) (g : GroupSnapshotMetadata) → Keeps P (remove_group E cs id g)
      unfolding remove_group delete_group_snapshot_metadata
      remove_group-Keeps id g =
          >>=-Keeps P (logged (cleanup_snapshot E cs g.snapshot_id))
            (λ _. logged (delete_group_snapshot_metadata E metadata_namespace id))
            (logged-Keeps P _ (cleanup_runs-Keeps g.snapshot_id))
            (λ _. logged-Keeps P _ (deletes_group id))

      -- A deletion keeps whatever the reading calls, the run of the cleanup, and the removal of a group's
      -- entry keep, however it ends.
      pub delete_runs-Keeps : (id : Str) → Keeps P (delete_volume_group_snapshot E cs id)
      unfolding delete_volume_group_snapshot delete_known retrieve_group_snapshot_metadata retrieve
      delete_runs-Keeps [] s p = p
      delete_runs-Keeps (c ∷ id) s p =
          go (retrieve_group_snapshot_metadata E metadata_namespace cs (c ∷ id) s).0 refl
        where
          kept : P (retrieve_group_snapshot_metadata E metadata_namespace cs (c ∷ id) s).1
          kept =
              let seen = K.get_config_map metadata_namespace group_kind.config_map_name s p in
              ground arith

          go :
              (r : Result GroupSnapshotMetadata)
              → (retrieve_group_snapshot_metadata E metadata_namespace cs (c ∷ id) s).0 ≡ r
              → P (delete_volume_group_snapshot E cs (c ∷ id) s).1
          go (ok g) e = rw (e, delete_known) (remove_group-Keeps (c ∷ id) g _ kept)
          go (err x) e = rw (e, delete_known) kept
          go (panic x) e = rw (e, delete_known) kept

  module _
      (deletes : (key : Str) → Keeps P (delete_entry E metadata_namespace single_kind key)) where
    run_cleanup-Keeps : (id : Str) (d : SnapshotMetadata) → Keeps P (run_cleanup E cs id d)
    unfolding run_cleanup delete_snapshot_metadata
    run_cleanup-Keeps id d =
        >>=-Keeps P (generated E cs id d) (job_done E cs d.namespace id) (λ s p. p)
          (λ j.
            >>=-Keeps P (job_run E cs d.namespace j) (λ _. metadata_deleted E cs id)
              (job_run-Keeps d.namespace j)
              (λ _.
                map_err-Keeps P _ (delete_snapshot_metadata E metadata_namespace id) (deletes id)))

    pub cleanup-Keeps : (id : Str) → Keeps P (cleanup_snapshot E cs id)
    cleanup-Keeps = cleanup_runs-Keeps run_cleanup-Keeps

    -- A deletion keeps whatever the reading calls, the creation of a job, and the removal of an entry
    -- keep, however it ends.
    pub delete-Keeps :
        ((key : Str) → Keeps P (delete_entry E metadata_namespace group_kind key))
        → (id : Str) → Keeps P (delete_volume_group_snapshot E cs id)
    delete-Keeps = delete_runs-Keeps run_cleanup-Keeps

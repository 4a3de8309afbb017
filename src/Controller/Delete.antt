-- ===== src/Controller/Delete.antt =====
-- `DeleteVolumeGroupSnapshot` and `cleanupSnapshot` (internal/driver/groupcontroller.go).
pub mod Total
pub mod Gone
pub mod Target
pub mod Removal
pub mod Frame
pub mod Cleanup
pub mod Orphan
use etcd_snapshot_driver.Common.{
  Str, lit, is_empty, Bool, true, false, Option, none, some, [], ◌++◌, pos, LibError, Error,
  wrapped, lib, status, invalid_argument, Result, ok, err, panic, Act, pure, throw, read, call_or,
  map_err, logged, reject_if, ◌>>=◌, ◌>>◌,
}
use etcd_snapshot_driver.Env.{Env}
use etcd_snapshot_driver.Kube.{Job}
use etcd_snapshot_driver.Job.Config.{JobConfig}
use etcd_snapshot_driver.Job.Template.{generate_snapshot_delete_job}
use etcd_snapshot_driver.Job.Executor.{execute_snapshot_job}
use etcd_snapshot_driver.Snapshot.{SnapshotMetadata, GroupSnapshotMetadata, Codecs}
use etcd_snapshot_driver.Snapshot.Manager.{
  retrieve_snapshot_metadata, delete_snapshot_metadata, retrieve_group_snapshot_metadata,
  delete_group_snapshot_metadata,
}
use etcd_snapshot_driver.Controller.Types.{metadata_namespace}

-- The configuration of the cleanup job: the fields that the source leaves out are zero.
unfoldable pub cleanup_config : Str → SnapshotMetadata → JobConfig
cleanup_config snapshot_id metadata = record {
  snapshot_id = snapshot_id;
  namespace = metadata.namespace;
  etcd_endpoints = [];
  snapshot_pvc_name = metadata.pvc_name;
  snapshot_pvc_namespace = metadata.namespace;
  timeout = pos 60;
  backoff_limit = pos 1;
  active_deadline_seconds = pos 120;
  operation = lit "delete";
  tls_enabled = false;
  tls_secret_name = [];
  client_cert_path = [];
  client_key_path = [];
  ca_path = [];
  etcd_image = [];
  busybox_image = [];
}

abbrev pub check_cleanup : {S : Type 0} → Option Error → Act S Unit
check_cleanup none = pure tt
check_cleanup (some e) = throw (wrapped (lit "cleanup job failed") e)

module _ (E : Env) (cs : Codecs) where
  abbrev pub generated : Str → SnapshotMetadata → Act E.State (Job E.Quantity)
  generated snapshot_id metadata s =
      (generate_snapshot_delete_job E (cleanup_config snapshot_id metadata), s)

  -- The job is created here, and once more by the executor.
  abbrev pub job_run : Str → Job E.Quantity → Act E.State Unit
  job_run namespace delete_job = do
    created ←
        call_or (E.create_job namespace delete_job)
          (λ e. wrapped (lit "failed to create cleanup job") (lib e))
    outcome ← read (execute_snapshot_job E created (pos 60000000000))
    check_cleanup outcome.1

  abbrev pub metadata_deleted : Str → Act E.State Unit
  metadata_deleted snapshot_id =
      map_err (wrapped (lit "failed to delete metadata"))
        (delete_snapshot_metadata E metadata_namespace snapshot_id)

  abbrev pub job_done : Str → Str → Job E.Quantity → Act E.State Unit
  job_done namespace snapshot_id delete_job = do
    job_run namespace delete_job
    metadata_deleted snapshot_id

  -- `cleanupSnapshot`, after the metadata have been found.
  unfoldable pub run_cleanup : Str → SnapshotMetadata → Act E.State Unit
  unfolding cleanup_config
  run_cleanup snapshot_id metadata =
      generated snapshot_id metadata >>= job_done metadata.namespace snapshot_id

  unfoldable pub cleanup_snapshot : Str → Act E.State Unit
  unfolding run_cleanup
  cleanup_snapshot snapshot_id s =
      let (r, s') = retrieve_snapshot_metadata E metadata_namespace cs snapshot_id s in
      elim r [
        | ok metadata ↦ run_cleanup snapshot_id metadata s'
        | err _ ↦ pure tt s'
        | panic p ↦ (panic p, s')
      ]

  -- The two steps that remove a group whose metadata are known; their errors are logged.
  unfoldable pub remove_group : Str → GroupSnapshotMetadata → Act E.State Unit
  unfolding cleanup_snapshot
  remove_group group_snapshot_id metadata = do
    logged (cleanup_snapshot metadata.snapshot_id)
    logged (delete_group_snapshot_metadata E metadata_namespace group_snapshot_id)

  unfoldable pub delete_known : Str → Act E.State Unit
  unfolding remove_group
  delete_known group_snapshot_id s =
      let (r, s') = retrieve_group_snapshot_metadata E metadata_namespace cs group_snapshot_id s in
      elim r [
        | ok metadata ↦ remove_group group_snapshot_id metadata s'
        | err _ ↦ pure tt s'
        | panic p ↦ (panic p, s')
      ]

  unfoldable pub delete_volume_group_snapshot : Str → Act E.State Unit
  unfolding delete_known
  delete_volume_group_snapshot group_snapshot_id = do
    reject_if (is_empty group_snapshot_id)
        (status invalid_argument (lit "group_snapshot_id required"))
    delete_known group_snapshot_id

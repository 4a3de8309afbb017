-- ===== src/Controller/Create.antt =====
-- `CreateVolumeGroupSnapshot` (internal/driver/groupcontroller.go).
pub mod Rejected
pub mod Recorded
pub mod Frame
pub mod Saved
pub mod Entered
pub mod Succeeds
pub mod Guarded
pub mod LongName
use etcd_snapshot_driver.Common.{
  ℕ, Str, lit, Bool, true, false, Option, none, some, List, [], ◌∷◌, ◌++◌, ℤ, pos, Error, status,
  internal, error_text, Result, ok, err, panic, Act, pure, throw, panics, read, map_err, logged,
  ◌>>=◌, ◌>>◌,
}
use etcd_snapshot_driver.Env.{Env}
use etcd_snapshot_driver.Kube.{Job}
use etcd_snapshot_driver.Job.Config.{JobConfig}
use etcd_snapshot_driver.Job.Template.{generate_snapshot_save_job}
use etcd_snapshot_driver.Job.Executor.{JobResult, execute_snapshot_job}
use etcd_snapshot_driver.Snapshot.{SnapshotMetadata, GroupSnapshotMetadata, Codecs}
use etcd_snapshot_driver.Snapshot.Manager.{store_snapshot_metadata, store_group_snapshot_metadata}
use etcd_snapshot_driver.Provisioner.{ensure_snapshot_pvc}
use etcd_snapshot_driver.Etcd.Discovery.{Discovery, new_discovery}
use etcd_snapshot_driver.Controller.Types.{
  ControllerConfig, provisioner, CreateRequest, Snapshot, GroupSnapshot, stamped,
  metadata_namespace,
}
use etcd_snapshot_driver.Controller.Checks.{ClusterEntry, Found, check_request}

-- `list[0]`
abbrev pub first_of_list : {S A : Type 0} → List A → Act S A
first_of_list [] = panics (lit "runtime error: index out of range [0] with length 0")
first_of_list (x ∷ _) = pure x

-- The configuration of the save job.
unfoldable pub save_config : ControllerConfig → Str → Str → ClusterEntry → JobConfig
save_config cfg snapshot_id pvc_name first = record {
  snapshot_id = snapshot_id;
  namespace = first.volume_info.namespace;
  etcd_endpoints = first.info.endpoints;
  snapshot_pvc_name = pvc_name;
  snapshot_pvc_namespace = first.volume_info.namespace;
  timeout = pos 300;
  backoff_limit = cfg.job_backoff_limit;
  active_deadline_seconds = cfg.job_active_deadline_seconds;
  operation = lit "save";
  tls_enabled = cfg.etcd_tls_enabled;
  tls_secret_name = cfg.etcd_tls_secret_name;
  client_cert_path = cfg.etcd_client_cert_path;
  client_key_path = cfg.etcd_client_key_path;
  ca_path = cfg.etcd_ca_path;
  etcd_image = cfg.etcd_image;
  busybox_image = cfg.busybox_image;
}

-- The snapshot that phases 6 and 7 took.
pub record Taken : Type 0 where
  pub snapshot_id : Str
  pub pvc_name : Str
  pub namespace : Str

abbrev pub check_outcome : {S : Type 0} → Option Error → Act S Unit
check_outcome none = pure tt
check_outcome (some e) = throw (status internal (lit "snapshot creation failed: " ++ error_text e))

-- What is recorded of the snapshot and of the group, and what is answered.
abbrev pub single_metadata : Str → Str → Taken → ℕ → SnapshotMetadata
single_metadata source cluster_name taken t = record {
  snapshot_id = taken.snapshot_id;
  source_volume_id = source;
  cluster_name = cluster_name;
  creation_time = t;
  size = pos 0;
  checksum_sha256 = [];
  ready_to_use = true;
  pvc_name = taken.pvc_name;
  namespace = taken.namespace;
}

abbrev pub group_metadata : Str → List Str → Str → Taken → ℕ → GroupSnapshotMetadata
group_metadata group_snapshot_id source_volume_ids cluster_name taken t = record {
  group_snapshot_id = group_snapshot_id;
  snapshot_id = taken.snapshot_id;
  source_volume_ids = source_volume_ids;
  cluster_name = cluster_name;
  snapshot_pvc_name = taken.pvc_name;
  snapshot_pvc_namespace = taken.namespace;
  creation_time = t;
  ready_to_use = true;
}

abbrev pub group_answer : Str → Str → Taken → ℕ → ℕ → GroupSnapshot
group_answer group_snapshot_id source taken t t' = record {
  group_snapshot_id = group_snapshot_id;
  snapshots =
      record {
        snapshot_id = taken.snapshot_id;
        source_volume_id = source;
        creation_time = t;
        ready_to_use = true;
      }
      ∷ [];
  creation_time = t';
  ready_to_use = true;
}

module _ (E : Env) (cfg : ControllerConfig) where
  abbrev pub discovery : Discovery E
  discovery = new_discovery E cfg.cluster_label_key

  -- Phase 7: the job saves a snapshot to the PVC.
  unfoldable pub run_save : Str → ClusterEntry → Str → Act E.State Taken
  unfolding save_config
  run_save group_snapshot_id first pvc_name = do
    t ← read E.now
    let snapshot_id = stamped group_snapshot_id t
    snapshot_job ←
        λ s. (generate_snapshot_save_job E (save_config cfg snapshot_id pvc_name first), s)
    outcome ← read (execute_snapshot_job E snapshot_job cfg.snapshot_timeout)
    check_outcome outcome.1
    pure (record {
      snapshot_id = snapshot_id;
      pvc_name = pvc_name;
      namespace = first.volume_info.namespace;
    })

  abbrev pub prepare_pvc : ClusterEntry → Act E.State Str
  prepare_pvc first =
      map_err (λ e. status internal (lit "failed to prepare snapshot storage: " ++ error_text e))
        (ensure_snapshot_pvc E (provisioner cfg) first.volume_info.namespace)

  -- Phases 6 and 7: the PVC and the job.
  unfoldable pub take_snapshot : Str → Found → Act E.State Taken
  unfolding run_save
  take_snapshot group_snapshot_id found = do
    first ← first_of_list found.cluster_infos
    pvc_name ← prepare_pvc first
    run_save group_snapshot_id first pvc_name

  module _ (cs : Codecs) where
    -- Phases 8 and 9: the metadata and the response. Failures to store are logged.
    unfoldable pub record_snapshot : Str → List Str → Str → Taken → Act E.State GroupSnapshot
    record_snapshot group_snapshot_id source_volume_ids cluster_name taken = do
      source ← first_of_list source_volume_ids
      t₁ ← read E.now
      logged (
          store_snapshot_metadata E metadata_namespace cs
            (single_metadata source cluster_name taken t₁))
      t₂ ← read E.now
      logged (
          store_group_snapshot_metadata E metadata_namespace cs
            (group_metadata group_snapshot_id source_volume_ids cluster_name taken t₂))
      t₃ ← read E.now
      t₄ ← read E.now
      pure (group_answer group_snapshot_id source taken t₃ t₄)

    -- What follows the checks.
    abbrev pub after_checks : CreateRequest → Str → Found → Act E.State GroupSnapshot
    after_checks req group_snapshot_id found =
        take_snapshot group_snapshot_id found
        >>= record_snapshot group_snapshot_id req.source_volume_ids found.first_cluster_name

    abbrev pub create_at : CreateRequest → ℕ → Act E.State GroupSnapshot
    create_at req t =
        check_request E discovery req.name req.source_volume_ids
        >>= after_checks req (stamped req.name t)

    unfoldable pub create_volume_group_snapshot : CreateRequest → Act E.State GroupSnapshot
    unfolding take_snapshot record_snapshot
    create_volume_group_snapshot req = read E.now >>= create_at req

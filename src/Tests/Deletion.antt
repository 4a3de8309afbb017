-- ===== src/Tests/Deletion.antt =====
-- Examples for the deletion of a group snapshot.
use etcd_snapshot_driver.Common.{
  if◌then◌else◌, Str, lit, str_eq, true, none, [], ◌∷◌, pos, ok, ◌≡◌, ◌≢◌, refl, ap, ◌∙◌, LibError,
  Reply, value, failure, false,
}
use etcd_snapshot_driver.Common.Dict.{lookup, insert}
use etcd_snapshot_driver.Kube.{Job}
use etcd_snapshot_driver.Fake.{laws-IsReliable, Answers, world, laws, made_job, other_error}
use etcd_snapshot_driver.Codec.{codecs}
use etcd_snapshot_driver.Job.Template.{generate_snapshot_save_job, generate_snapshot_delete_job}
use etcd_snapshot_driver.Snapshot.{SnapshotMetadata}
use etcd_snapshot_driver.Snapshot.Manager.{
  retrieve_group_snapshot_metadata, group_kind, store, retrieve,
}
use etcd_snapshot_driver.Etcd.Discovery.{cluster_of_pods}
use etcd_snapshot_driver.Controller.Types.{metadata_namespace}
use etcd_snapshot_driver.Controller.Delete.{delete_volume_group_snapshot}
use etcd_snapshot_driver.Controller.Delete.Removal.{group_entry, IsSeparate, delete_removes}
use etcd_snapshot_driver.Controller.Create.{save_config}
use etcd_snapshot_driver.Controller.Delete.{cleanup_config}
use etcd_snapshot_driver.Controller.Delete.Target.{cleanup_target}
use etcd_snapshot_driver.Job.Template.Script.{claims, commands, Saves, MountsClaim, file_of}
use etcd_snapshot_driver.Controller.Create.Saved.{arguments}
use etcd_snapshot_driver.Controller.Checks.{ClusterEntry}
use etcd_snapshot_driver.Snapshot.Table.{Contents, Sets}
use etcd_snapshot_driver.Snapshot.Manager.{single_kind, retrieve_snapshot_metadata}
use etcd_snapshot_driver.Controller.Delete.{cleanup_snapshot}
use etcd_snapshot_driver.Controller.Delete.Orphan.{RefusesVersions, single_entry, delete_orphans}
use etcd_snapshot_driver.Controller.Delete.Cleanup.{cleanup-Sets}
use etcd_snapshot_driver.Controller.Delete.Total.{delete_ok}
use etcd_snapshot_driver.Tests.World.{
  volume_id, good, no_maps, group, stored, config, reads, job_of,
}

delete_ok_example : (delete_volume_group_snapshot (world good) codecs (lit "g-1") stored).0 ≡ ok tt
unfolding lit
delete_ok_example =
    delete_ok (world good) (refl, refl, refl, refl) codecs (lit "g-1") stored (λ e. cc)

pub separate : (a : Answers) → IsSeparate (world a) (laws a)
separate a = record { reads = λ P. reads a P; jobs = λ ns j s. refl }

pub reads_group :
    (retrieve_group_snapshot_metadata (world good) metadata_namespace codecs (lit "g-1") stored).0
    ≡ ok group
unfolding retrieve_group_snapshot_metadata retrieve store metadata_namespace group_kind str_eq lit
    lookup insert
reads_group = refl

delete_removes_example :
    group_entry
      ((laws good).maps (delete_volume_group_snapshot (world good) codecs (lit "g-1") stored).1)
      (lit "old")
    ≡ (if str_eq (lit "g-1") (lit "old")
        then none
        else group_entry ((laws good).maps stored) (lit "old"))
unfolding lit
delete_removes_example =
    delete_removes (world good) (laws good) (laws-IsReliable good refl) (separate good) codecs
      (refl, refl, refl, refl) (lit "g-1") stored (λ e. cc) reads_group (lit "old")

abbrev first_cluster : ClusterEntry
first_cluster = record {
  index = 0;
  info =
      cluster_of_pods (lit "prod") (lit "main")
        (record { name = lit "etcd-0"; containers = [] } ∷ []);
  volume_info = record {
    namespace = lit "prod";
    name = lit "data-etcd-0";
    original_id = volume_id;
  };
}

abbrev recorded : SnapshotMetadata
recorded = record {
  snapshot_id = lit "s-1";
  source_volume_id = volume_id;
  cluster_name = lit "main";
  creation_time = 5;
  size = pos 0;
  checksum_sha256 = [];
  ready_to_use = true;
  pvc_name = lit "etcd-snapshots";
  namespace = lit "prod";
}

abbrev first_job : Job Str
first_job = job_of (
    generate_snapshot_save_job (world good)
      (save_config config (lit "s-1") (lit "etcd-snapshots") first_cluster))

abbrev cleanup_job : Job Str
cleanup_job =
    job_of (generate_snapshot_delete_job (world good) (cleanup_config (lit "s-1") recorded))

cleanup_target_example :
    (cleanup_job.meta.namespace ≡ first_job.meta.namespace)
    × (claims cleanup_job.template.volumes ≡ claims first_job.template.volumes)
    × (claims first_job.template.volumes ≡ lit "etcd-snapshots" ∷ [])
    × MountsClaim (lit "etcd-snapshots") first_job.template
    × MountsClaim (lit "etcd-snapshots") cleanup_job.template
    × (commands cleanup_job.template ≡ (lit "rm" ∷ lit "-f" ∷ file_of (lit "s-1") ∷ []) ∷ [])
    × Saves
        (file_of (lit "s-1"))
        first_cluster.info.endpoints
        (arguments config)
        (commands first_job.template)
unfolding generate_snapshot_save_job generate_snapshot_delete_job lit
cleanup_target_example =
    cleanup_target (world good) config (lit "s-1") (lit "etcd-snapshots") first_cluster recorded
      refl refl refl refl

-- A state in which the metadata of one snapshot are stored.
abbrev with_snapshot : Contents
with_snapshot =
    (store (world good) metadata_namespace codecs.single single_kind (lit "s-1") recorded no_maps).1

reads_snapshot :
    (retrieve_snapshot_metadata (world good) metadata_namespace codecs (lit "s-1") with_snapshot).0
    ≡ ok recorded
unfolding retrieve_snapshot_metadata retrieve store metadata_namespace single_kind str_eq lit lookup
    insert
reads_snapshot = refl

-- A server that would create a job twice.
abbrev lenient : Answers
lenient = record good { has_versions = false }

cleanup-Sets_example :
    Sets
      (laws lenient).maps
      with_snapshot
      metadata_namespace
      single_kind.config_map_name
      (lit "s-1")
      none
      (cleanup_snapshot (world lenient) codecs (lit "s-1") with_snapshot)
unfolding lit retrieve_snapshot_metadata
cleanup-Sets_example =
    cleanup-Sets (world lenient) (laws lenient) (separate lenient) codecs (refl, refl, refl, refl)
      (λ s e h.
        (laws-IsReliable lenient refl).reads metadata_namespace single_kind.config_map_name s e h)
      (lit "s-1") with_snapshot reads_snapshot

-- The group with its snapshot.
abbrev with_both : Contents
with_both =
    (store (world good) metadata_namespace codecs.single single_kind (lit "g-1-2") recorded
      stored).1

failed_value : {x : LibError} {j : Job Str} → ◌≡◌ {A = Reply (Job Str)} (failure x) (value j) → ⊥
failed_value e = cc

abbrev version_of : Reply (Job Str) → Str
version_of (value j) = j.meta.resource_version
version_of (failure _) = []

one_given : lit "1" ≢ []
unfolding lit
one_given e = cc

refuses_versions : RefusesVersions (world good)
refuses_versions = record {
  versioned = λ ns j s {made} e. made_versioned j j.meta.resource_version made e;
  refused = λ ns j s versioned. remade_refused j j.meta.resource_version versioned;
}
  where
    made_versioned :
        (j : Job Str) (version : Str) (made : Job Str)
        → made_job true j version ≡ value made
        → made.meta.resource_version ≢ []
    made_versioned j [] made e none_given = one_given (ap version_of e ∙ none_given)
    made_versioned j (_ ∷ _) made e none_given = failed_value e

    remade_refused :
        (j : Job Str) (version : Str)
        → version ≢ []
        → (e : LibError) × (made_job true j version ≡ failure e) × (e.is_already_exists ≡ false)
    remade_refused j [] given = absurd (given refl)
    remade_refused j (_ ∷ _) given = (other_error, refl, refl)

delete_orphans_example :
    ((delete_volume_group_snapshot (world good) codecs (lit "g-1") with_both).0 ≡ ok tt)
    × ((key : Str)
        → single_entry
            (delete_volume_group_snapshot (world good) codecs (lit "g-1") with_both).1
            key
          ≡ single_entry with_both key)
unfolding lit
delete_orphans_example =
    delete_orphans (world good) (laws good) (separate good) refuses_versions codecs
      (refl, refl, refl, refl) (lit "g-1") with_both (λ e. cc)

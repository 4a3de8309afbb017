-- ===== src/Controller/Get.antt =====
-- `GetVolumeGroupSnapshot` (internal/driver/groupcontroller.go).
pub mod Lookup
use etcd_snapshot_driver.Common.{
  ℕ, Str, lit, is_empty, [], ◌∷◌, ◌++◌, status, invalid_argument, not_found, Result, ok, err, panic,
  Act, pure, map_err, reject_if, ◌>>=◌, ◌>>◌,
}
use etcd_snapshot_driver.Env.{Env}
use etcd_snapshot_driver.Snapshot.{SnapshotMetadata, GroupSnapshotMetadata, Codecs}
use etcd_snapshot_driver.Snapshot.Manager.{
  retrieve_snapshot_metadata, retrieve_group_snapshot_metadata,
}
use etcd_snapshot_driver.Controller.Types.{GroupSnapshot, metadata_namespace}
use etcd_snapshot_driver.Controller.Create.{first_of_list}

-- The creation time of the snapshot, or that of the group where the snapshot cannot be read.
abbrev pub time_from : {S : Type 0} → ℕ → Result SnapshotMetadata × S → Result ℕ × S
time_from t (ok m, s) = (ok m.creation_time, s)
time_from t (err _, s) = (ok t, s)
time_from t (panic p, s) = (panic p, s)

abbrev pub response : Str → GroupSnapshotMetadata → Str → ℕ → GroupSnapshot
response group_snapshot_id metadata source t = record {
  group_snapshot_id = group_snapshot_id;
  snapshots =
      record {
        snapshot_id = metadata.snapshot_id;
        source_volume_id = source;
        creation_time = t;
        ready_to_use = metadata.ready_to_use;
      }
      ∷ [];
  creation_time = t;
  ready_to_use = metadata.ready_to_use;
}

module _ (E : Env) (cs : Codecs) where
  -- The answer from the metadata of the group.
  abbrev pub answer_from : Str → GroupSnapshotMetadata → Act E.State GroupSnapshot
  answer_from group_snapshot_id metadata = do
    t ← λ s.
        time_from metadata.creation_time
          (retrieve_snapshot_metadata E metadata_namespace cs metadata.snapshot_id s)
    source ← first_of_list metadata.source_volume_ids
    pure (response group_snapshot_id metadata source t)

  abbrev pub found_group : Str → Act E.State GroupSnapshotMetadata
  found_group group_snapshot_id =
      map_err (λ _. status not_found (lit "group snapshot not found: " ++ group_snapshot_id))
        (retrieve_group_snapshot_metadata E metadata_namespace cs group_snapshot_id)

  unfoldable pub get_volume_group_snapshot : Str → Act E.State GroupSnapshot
  get_volume_group_snapshot group_snapshot_id = do
    reject_if (is_empty group_snapshot_id)
        (status invalid_argument (lit "group_snapshot_id required"))
    metadata ← found_group group_snapshot_id
    answer_from group_snapshot_id metadata

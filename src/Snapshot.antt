-- ===== src/Snapshot.antt =====
-- Package snapshot (internal/snapshot/metadata.go): metadata kept as JSON in two ConfigMaps.
pub mod Manager
pub mod Table
use etcd_snapshot_driver.Common.{ℕ, Str, Bool, List, ℤ, Reply, value, ◌≡◌}

pub record SnapshotMetadata : Type 0 where
  pub snapshot_id : Str
  pub source_volume_id : Str
  pub cluster_name : Str
  pub creation_time : ℕ  -- nanoseconds since 1970
  pub size : ℤ
  pub checksum_sha256 : Str
  pub ready_to_use : Bool
  pub pvc_name : Str
  pub namespace : Str

pub record GroupSnapshotMetadata : Type 0 where
  pub group_snapshot_id : Str
  pub snapshot_id : Str
  pub source_volume_ids : List Str
  pub cluster_name : Str
  pub snapshot_pvc_name : Str
  pub snapshot_pvc_namespace : Str
  pub creation_time : ℕ
  pub ready_to_use : Bool

-- `json.Marshal` and `json.Unmarshal` at one type.
pub record Codec (A : Type 0) : Type 0 where
  pub marshal : A → Reply Str
  pub unmarshal : Str → Reply A

-- What was written is read back.
pub record IsFaithful {A : Type 0} (c : Codec A) : Type 0 where
  pub unmarshal-marshal :
      (a : A) {text : Str} → c.marshal a ≡ value text → c.unmarshal text ≡ value a

pub record Codecs : Type 0 where
  pub single : Codec SnapshotMetadata
  pub group : Codec GroupSnapshotMetadata

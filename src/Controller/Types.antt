-- ===== src/Controller/Types.antt =====
-- The controller's configuration (internal/driver/controller.go), its requests and responses, and
-- the identifiers that it makes.
pub mod Unique
pub mod Length
use etcd_snapshot_driver.Common.{ℕ, ◌/◌, Str, lit, Bool, List, ◌++◌, ℤ}
use etcd_snapshot_driver.Common.Decimal.{itoa}
use etcd_snapshot_driver.Provisioner.{Provisioner}

-- A `*zap.SugaredLogger`: nil, the one that drops everything, or the one that was built from the
-- settings. Nothing reads back what is logged.
pub data Logger : Type 0 where
  nil_logger nop_logger built_logger : Logger

pub record ControllerConfig : Type 0 where
  pub logger : Logger
  pub snapshot_timeout : ℤ  -- nanoseconds
  pub cluster_label_key : Str
  pub job_backoff_limit : ℤ
  pub job_active_deadline_seconds : ℤ
  pub etcd_image : Str
  pub busybox_image : Str
  pub etcd_tls_enabled : Bool
  pub etcd_tls_secret_name : Str
  pub etcd_tls_secret_namespace : Str
  pub etcd_client_cert_path : Str
  pub etcd_client_key_path : Str
  pub etcd_ca_path : Str
  pub default_storage_class : Str
  pub snapshot_pvc_size : Str

-- The provisioner that `NewGroupControllerServer` makes.
abbrev pub provisioner : ControllerConfig → Provisioner
provisioner cfg = record {
  storage_class = cfg.default_storage_class;
  pvc_size = cfg.snapshot_pvc_size;
}

pub record CreateRequest : Type 0 where
  pub name : Str
  pub source_volume_ids : List Str

pub record Snapshot : Type 0 where
  pub snapshot_id : Str
  pub source_volume_id : Str
  pub creation_time : ℕ
  pub ready_to_use : Bool

pub record GroupSnapshot : Type 0 where
  pub group_snapshot_id : Str
  pub snapshots : List Snapshot
  pub creation_time : ℕ
  pub ready_to_use : Bool

-- `time.Unix()` of a time in nanoseconds since 1970
abbrev pub unix : ℕ → ℕ
unix t = t / 1000000000

-- `fmt.Sprintf("%s-%d", s, t.Unix())`
unfoldable pub stamped : Str → ℕ → Str
stamped s t = s ++ (lit "-" ++ itoa (unix t))

-- The namespace of the metadata.
unfoldable pub metadata_namespace : Str
unfolding lit
metadata_namespace = lit "kube-system"

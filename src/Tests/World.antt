-- ===== src/Tests/World.antt =====
-- What the examples share: the world, its answers and the settings.
use etcd_snapshot_driver.Common.{
  Str, lit, str_eq, Bool, true, false, not, Option, none, some, List, [], ◌∷◌, pos, value, Result,
  ok,
}
use etcd_snapshot_driver.Kube.{Pvc, Counts, Job, Member, MemberList}
use etcd_snapshot_driver.Env.Frame.{ReadsKeep}
use etcd_snapshot_driver.Fake.{Answers, world, get-same, with_counts}
use etcd_snapshot_driver.Codec.{codecs}
use etcd_snapshot_driver.Snapshot.{GroupSnapshotMetadata}
use etcd_snapshot_driver.Snapshot.Manager.{group_kind, store}
use etcd_snapshot_driver.Snapshot.Table.{Contents}
use etcd_snapshot_driver.Controller.Types.{nop_logger, ControllerConfig}

abbrev pub volume_id : Str
volume_id = lit "prod/data-etcd-0"

-- `data-etcd-0` in `prod`, whose label says that it belongs to the cluster `main`.
abbrev pub data_pvc : Pvc Str
data_pvc = record {
  meta = record {
    name = lit "data-etcd-0";
    namespace = lit "prod";
    labels = (lit "etcd.io/cluster", lit "main") ∷ [];
    resource_version = lit "1";
  };
  phase = lit "Bound";
  access_modes = lit "ReadWriteOnce" ∷ [];
  storage_request = none;
  storage_class_name = none;
}

abbrev pub member : Str → Bool → Member
member id learner = record { id = id; is_learner = learner; client_urls = id ∷ [] }

-- Three voters `a`, `b` and `c` and a learner `d`; `a` answers the listing.
abbrev pub four_members : MemberList
four_members = record {
  header_member_id = lit "a";
  members =
      member (lit "a") false
      ∷ member (lit "b") false
      ∷ member (lit "c") false
      ∷ member (lit "d") true
      ∷ [];
}

abbrev pub idle : Counts
idle = record { active = pos 1; succeeded = pos 0; failed = pos 0 }

abbrev pub done : Counts
done = record { active = pos 0; succeeded = pos 1; failed = pos 0 }

abbrev pub good : Answers
good = record {
  clock = 1700000000000000000;
  tick_count = 3;
  pvc = value data_pvc;
  pods = value (record { name = lit "etcd-0"; containers = lit "etcd" ∷ [] } ∷ []);
  members = four_members;
  is_up = λ _. true;
  is_healthy = λ url. not (str_eq url (lit "c"));
  counts = done;
  has_versions = true;
  limits_labels = false;
  is_readable = true;
}

-- No ConfigMap, and one with an entry.
abbrev pub no_maps : Contents
no_maps _ _ = none

abbrev pub some_maps : Contents
some_maps _ _ = some ((lit "old", lit "text") ∷ [])

abbrev pub group : GroupSnapshotMetadata
group = record {
  group_snapshot_id = lit "g-1";
  snapshot_id = lit "g-1-2";
  source_volume_ids = volume_id ∷ [];
  cluster_name = lit "main";
  snapshot_pvc_name = lit "etcd-snapshots";
  snapshot_pvc_namespace = lit "prod";
  creation_time = 5;
  ready_to_use = true;
}

abbrev pub stored : Contents
stored =
    (store (world good) (lit "kube-system") codecs.group group_kind (lit "g-1") group some_maps).1

abbrev pub config : ControllerConfig
config = record {
  logger = nop_logger;
  snapshot_timeout = pos 300000000000;
  cluster_label_key = lit "etcd.io/cluster";
  job_backoff_limit = pos 3;
  job_active_deadline_seconds = pos 600;
  etcd_image = [];
  busybox_image = [];
  etcd_tls_enabled = false;
  etcd_tls_secret_name = [];
  etcd_tls_secret_namespace = [];
  etcd_client_cert_path = [];
  etcd_client_key_path = [];
  etcd_ca_path = [];
  default_storage_class = [];
  snapshot_pvc_size = lit "10Gi";
}

pub reads : (a : Answers) (P : Contents → Type 0) → ReadsKeep (world a) P
reads a P = record {
  now = λ s p. p;
  ticks = λ t s p. p;
  get_pvc = λ ns name s p. p;
  list_pods = λ ns sel s p. p;
  pod_logs = λ ns name s p. p;
  get_config_map = λ ns name s p. rw (get-same a ns name s) p;
  get_job = λ ns name s p. p;
  new_client = λ urls tls s p. p;
  member_list = λ c s p. p;
  get_key = λ c key s p. p;
  close_client = λ c s p. closed c s p;
}
  where
    closed : (c : Option (List Str)) (s : Contents) → P s → P ((world a).close_client c s).1
    closed none s p = p
    closed (some _) s p = p

abbrev pub job_of : Result (Job Str) → Job Str
job_of (ok j) = j
job_of _ = with_counts [] [] idle

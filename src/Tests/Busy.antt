-- ===== src/Tests/Busy.antt =====
-- A world in which another writer sets a ConfigMap of its own whenever the driver reads or writes one.
pub mod Laws
use etcd_snapshot_driver.Common.{
  ℕ, suc, ◌∙◌, Str, lit, length, str_eq, true, ◌&&◌, if◌then◌else◌, Option, none, some, [], ◌∷◌,
  ◌<◌, LibError, Reply, Bool-cases, str_eq_iff, value, failure, deadline_exceeded, pure, ◌≡◌, ◌≢◌,
  ◌⊎◌, inl, inr, refl, ap, arith,
}
use etcd_snapshot_driver.Common.Dict.{Dict}
use etcd_snapshot_driver.Kube.{ConfigMap}
use etcd_snapshot_driver.Env.{Env}
use etcd_snapshot_driver.Fake.{not_found_error, other_error, with_counts}
use etcd_snapshot_driver.Snapshot.Manager.{contents}
use etcd_snapshot_driver.Snapshot.Table.{put_map}
use etcd_snapshot_driver.Snapshot.Table.Shared.{SharedLaws}
use etcd_snapshot_driver.Tests.World.{good}

-- What is kept of each ConfigMap: a version that grows, and the entries.
abbrev pub Versioned : Type 0
Versioned = Str → Str → Str × Option Dict

abbrev pub version_of : Versioned → Str → Str → Str
version_of s ns name = b'1' ∷ (s ns name).0

unfoldable pub set_map : Versioned → Str → Str → Dict → Versioned
set_map s ns name d ns' name' =
    if str_eq ns ns' && str_eq name name' then (b'1' ∷ (s ns' name').0, some d) else s ns' name'

-- Another writer sets a ConfigMap of its own.
abbrev pub intruded : Versioned → Versioned
intruded s = set_map s (lit "kube-system") (lit "other-driver") []

abbrev pub found : Versioned → Str → Str → Option Dict → Reply ConfigMap
found s ns name none = failure not_found_error
found s ns name (some d) = value (record {
  meta = record {
    name = name;
    namespace = ns;
    labels = [];
    resource_version = version_of s ns name;
  };
  entries = some d;
})

abbrev pub created : Str → ConfigMap → Versioned → Option Dict → Reply ConfigMap × Versioned
created ns cm s none = (value cm, intruded (set_map s ns cm.meta.name (contents cm.entries)))
created ns cm s (some _) = (failure other_error, s)

abbrev pub updated : Str → ConfigMap → Versioned → Reply ConfigMap × Versioned
updated ns cm s =
    if str_eq (version_of s ns cm.meta.name) cm.meta.resource_version
    then (value cm, intruded (set_map s ns cm.meta.name (contents cm.entries)))
    else (failure other_error, s)

abbrev pub busy : Env
busy = record {
  State = Versioned;
  Quantity = Str;
  parse_quantity = value;
  selector = λ _. lit "selector";
  now = λ s. (good.clock, s);
  ticks = λ _ s. ((good.tick_count, deadline_exceeded), s);
  get_pvc = λ _ _ s. (good.pvc, s);
  create_pvc = λ _ p s. (value p, s);
  list_pods = λ _ _ s. (good.pods, s);
  pod_logs = λ _ _ s. (value (lit "log"), s);
  get_config_map = λ ns name s. (found s ns name (s ns name).1, intruded s);
  create_config_map = λ ns cm s. created ns cm s (s ns cm.meta.name).1;
  update_config_map = λ ns cm s. updated ns cm s;
  create_job = λ _ j s. (value j, s);
  get_job = λ ns name s. (value (with_counts ns name good.counts), s);
  Client = Unit;
  TlsConfig = Unit;
  new_client = λ _ _ s. (value tt, s);
  member_list = λ _ s. (value good.members, s);
  get_key = λ _ _ s. (value tt, s);
  close_client = λ _. pure tt;
}

-- ===== src/Fake.antt =====
-- A small world for the examples: one API server that keeps ConfigMaps and gives fixed answers
-- otherwise, and an etcd whose members are up or down.
use etcd_snapshot_driver.Common.{
  ltb, length, ◌&&◌, ◌||◌, is_value, ℕ, Str, lit, is_empty, Bool, true, false, Option, none, some,
  List, [], ◌∷◌, pos, LibError, Reply, value, failure, deadline_exceeded, Act, panics, pure,
  if◌then◌else◌, ◌≡◌, refl, arith,
}
use etcd_snapshot_driver.Common.Dict.{Dict}
use etcd_snapshot_driver.Kube.{Meta, Pvc, Pod, ConfigMap, Counts, Job, MemberList}
use etcd_snapshot_driver.Env.{Env}
use etcd_snapshot_driver.Snapshot.Manager.{contents}
use etcd_snapshot_driver.Snapshot.Table.Reliable.{IsReliable}
use etcd_snapshot_driver.Snapshot.Table.{Contents, put_map, ConfigMapLaws}

abbrev pub not_found_error : LibError
not_found_error = record { text = lit "not found"; is_not_found = true; is_already_exists = false }

abbrev taken_error : LibError
taken_error = record { text = lit "exists"; is_not_found = false; is_already_exists = true }

abbrev pub other_error : LibError
other_error = record { text = lit "refused"; is_not_found = false; is_already_exists = false }

-- The fixed answers.
pub record Answers : Type 0 where
  pub clock : ℕ
  pub tick_count : ℕ
  pub pvc : Reply (Pvc Str)
  pub pods : Reply (List Pod)
  pub members : MemberList
  pub is_up : Str → Bool  -- the endpoints that can be dialled
  pub is_healthy : Str → Bool  -- those that answer a read
  pub counts : Counts
  pub has_versions : Bool  -- whether jobs are given resource versions
  pub limits_labels : Bool  -- whether long labels are refused
  pub is_readable : Bool  -- whether ConfigMaps can be read

abbrev cm_meta : Str → Str → Meta
cm_meta ns name = record { name = name; namespace = ns; labels = []; resource_version = lit "1" }

abbrev found_map : Str → Str → Option Dict → Reply ConfigMap
found_map ns name none = failure not_found_error
found_map ns name (some d) = value (record { meta = cm_meta ns name; entries = some d })

abbrev created_map : ConfigMap → Option Dict → Contents → Contents → Reply ConfigMap × Contents
created_map cm none m m' = (value cm, m')
created_map cm (some _) m m' = (failure taken_error, m)

abbrev dial : (Str → Bool) → List Str → Reply (List Str)
dial up [] = failure other_error
dial up (url ∷ urls) = if up url then value (url ∷ urls) else failure other_error

abbrev read_key : (Str → Bool) → List Str → Reply Unit
read_key healthy [] = failure other_error
read_key healthy (url ∷ _) = if healthy url then value tt else failure other_error

abbrev close : Option (List Str) → Act Contents Unit
close none = panics (lit "nil pointer dereference")
close (some _) = pure tt

abbrev parse : Str → Reply Str
parse text = if is_empty text then failure other_error else value text

abbrev pub with_counts : Str → Str → Counts → Job Str
with_counts ns name c = record {
  meta = record { name = name; namespace = ns; labels = []; resource_version = lit "1" };
  ttl_seconds_after_finished = pos 0;
  backoff_limit = pos 0;
  active_deadline_seconds = pos 0;
  template_labels = [];
  template = record {
    service_account_name = [];
    restart_policy = lit "Never";
    run_as_non_root = true;
    run_as_user = pos 1000;
    fs_group = pos 1000;
    seccomp_profile = [];
    containers = [];
    volumes = [];
  };
  counts = c;
}

-- The value of some label has more than 63 bytes.
unfoldable pub has_long : Dict → Bool
has_long [] = false
has_long ((_, text) ∷ labels) = ltb 63 (length text) || has_long labels

-- A job is given a resource version, and one that has a version is refused; or no version is looked at.
abbrev pub made_job : Bool → Job Str → Str → Reply (Job Str)
made_job false j _ = value j
made_job true j [] = value (record j { meta = record j.meta { resource_version = lit "1" } })
made_job true j (_ ∷ _) = failure other_error

abbrev pub world : Answers → Env
world a = record {
  State = Contents;
  Quantity = Str;
  parse_quantity = parse;
  selector = λ _. lit "selector";
  now = λ s. (a.clock, s);
  ticks = λ _ s. ((a.tick_count, deadline_exceeded), s);
  get_pvc = λ _ _ s. (a.pvc, s);
  create_pvc = λ _ p s. (value p, s);
  list_pods = λ _ _ s. (a.pods, s);
  pod_logs = λ _ _ s. (value (lit "log"), s);
  get_config_map = λ ns name s.
      if a.is_readable then (found_map ns name (s ns name), s) else (failure other_error, s);
  create_config_map = λ ns cm s.
      created_map cm (s ns cm.meta.name) s (put_map s ns cm.meta.name (contents cm.entries));
  update_config_map = λ ns cm s. (value cm, put_map s ns cm.meta.name (contents cm.entries));
  create_job = λ _ j s. (
    if a.limits_labels && has_long j.meta.labels
        then failure other_error
        else made_job a.has_versions j j.meta.resource_version,
    s,
  );
  get_job = λ ns name s. (value (with_counts ns name a.counts), s);
  Client = List Str;
  TlsConfig = Unit;
  new_client = λ urls _ s. (dial a.is_up urls, s);
  member_list = λ _ s. (value a.members, s);
  get_key = λ c _ s. (read_key a.is_healthy c, s);
  close_client = close;
}

pub found-value :
    (ns name : Str) (o : Option Dict) {cm : ConfigMap}
    → found_map ns name o ≡ value cm
    → (cm.meta.name ≡ name) × (o ≡ some (contents cm.entries))
found-value ns name none h = cc
found-value ns name (some d) h = ground arith

pub found-none :
    (ns name : Str) (o : Option Dict) {e : LibError} → found_map ns name o ≡ failure e → o ≡ none
found-none ns name none h = refl
found-none ns name (some d) h = cc

pub created-value :
    (cm : ConfigMap) (o : Option Dict) (m m' : Contents) {r : ConfigMap}
    → (created_map cm o m m').0 ≡ value r
    → (o ≡ none) × ((created_map cm o m m').1 ≡ m')
created-value cm none m m' h = (refl, refl)
created-value cm (some d) m m' h = cc

pub created-failure :
    (cm : ConfigMap) (o : Option Dict) (m m' : Contents) {e : LibError}
    → (created_map cm o m m').0 ≡ failure e
    → (created_map cm o m m').1 ≡ m
created-failure cm none m m' h = cc
created-failure cm (some d) m m' h = refl

module _ (a : Answers) where
  pub get-same : (ns name : Str) (s : Contents) → ((world a).get_config_map ns name s).1 ≡ s
  get-same ns name s = ground arith

  pub get-found :
      (ns name : Str) (s : Contents) {cm : ConfigMap}
      → ((world a).get_config_map ns name s).0 ≡ value cm
      → (cm.meta.name ≡ name) × (s ns name ≡ some (contents cm.entries))
  get-found ns name s h = ground (arith, found-value ns name (s ns name))

  pub get-missing :
      (ns name : Str) (s : Contents) {e : LibError}
      → ((world a).get_config_map ns name s).0 ≡ failure e
      → e.is_not_found ≡ true
      → s ns name ≡ none
  get-missing ns name s h nf = ground (arith, found-none ns name (s ns name))

pub no-failure :
    (cm r : ConfigMap) {e : LibError} {P : Type 0}
    → ◌≡◌ {A = Reply ConfigMap} (value r) (failure e)
    → P
no-failure cm r h = absurd (apart h)
  where
    apart : {e : LibError} → ◌≡◌ {A = Reply ConfigMap} (value r) (failure e) → ⊥
    apart h = cc

abbrev pub laws : (a : Answers) → ConfigMapLaws (world a)
laws a = record {
  maps = λ s. s;
  get_keeps = get-same a;
  get_value = λ ns name s h. get-found a ns name s h;
  get_not_found = λ ns name s h nf. get-missing a ns name s h nf;
  create_value = λ ns cm s h. created-value cm (s ns cm.meta.name) s _ h;
  create_failure = λ ns cm s h. created-failure cm (s ns cm.meta.name) s _ h;
  update_value = λ ns cm s h. refl;
  update_failure = λ ns cm s h. no-failure cm cm h;
}

found-failure :
    (ns name : Str) (o : Option Dict) {e : LibError}
    → found_map ns name o ≡ failure e
    → e.is_not_found ≡ true
found-failure ns name none h = ground arith
found-failure ns name (some d) h = cc

created_free :
    (cm : ConfigMap) (o : Option Dict) (m m' : Contents)
    → o ≡ none
    → is_value (created_map cm o m m').0 ≡ true
created_free cm none m m' h = refl
created_free cm (some d) m m' h = cc

-- The server of the world answers every call that can be answered, if ConfigMaps can be read.
pub laws-IsReliable : (a : Answers) → a.is_readable ≡ true → IsReliable (world a) (laws a)
laws-IsReliable a readable = record {
  reads = λ ns name s e h. reads ns name s h;
  creates = λ ns cm s h. created_free cm (s ns cm.meta.name) s _ h;
  updates = λ ns name s d h. refl;
}
  where
    reads :
        (ns name : Str) (s : Contents) {e : LibError}
        → ((world a).get_config_map ns name s).0 ≡ failure e
        → e.is_not_found ≡ true
    reads ns name s h = ground (arith, found-failure ns name (s ns name))

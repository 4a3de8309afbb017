-- ===== src/Job/Template.antt =====
-- `GenerateSnapshotSaveJob` and `GenerateSnapshotDeleteJob` (internal/job/templates.go).
pub mod WellFormed
pub mod Script
use etcd_snapshot_driver.Common.{
  String, Str, lit, is_empty, Bool, true, false, List, [], ◌∷◌, ◌++◌, pos, if◌then◌else◌, Reply,
  value, failure, Result, ok, err, panic,
}
use etcd_snapshot_driver.Env.{Env}
use etcd_snapshot_driver.Kube.{
  Volume, VolumeMount, VolumeSource, KeyToPath, persistent_volume_claim, empty_dir, secret,
  Resources, Container, PodSpec, Job,
}
use etcd_snapshot_driver.Job.Config.{JobConfig, build_snapshot_command, snapshot_path}

abbrev pub writable : Str → Str → VolumeMount
writable name path = record { name = name; mount_path = path; read_only = false }

abbrev pub read_only_mount : Str → Str → VolumeMount
read_only_mount name path = record { name = name; mount_path = path; read_only = true }

abbrev base_mounts : List VolumeMount
base_mounts =
    writable (lit "snapshot-pvc") (lit "/snapshots") ∷ writable (lit "tmp") (lit "/tmp") ∷ []

-- The volume mounts of a save job.
unfoldable pub save_mounts : Bool → List VolumeMount
save_mounts false = base_mounts
save_mounts true =
    base_mounts
    ++ read_only_mount (lit "etcd-client-tls") (lit "/etc/etcd/tls/client")
      ∷ read_only_mount (lit "etcd-ca") (lit "/etc/etcd/tls/etcd-ca")
      ∷ []

abbrev key_to_path : Str → Str → KeyToPath
key_to_path key path = record { key = key; path = path }

abbrev base_volumes : Str → List Volume
base_volumes claim =
    record { name = lit "snapshot-pvc"; source = persistent_volume_claim claim false }
    ∷ record { name = lit "tmp"; source = empty_dir }
    ∷ []

-- The volumes of a save job, from the claim's and the secret's names.
unfoldable pub save_volumes : Bool → Str → Str → List Volume
save_volumes false claim secret_name = base_volumes claim
save_volumes true claim secret_name =
    base_volumes claim
    ++ record {
      name = lit "etcd-client-tls";
      source = secret secret_name (
          key_to_path (lit "etcd-client.crt") (lit "etcd-client.crt")
          ∷ key_to_path (lit "etcd-client.key") (lit "etcd-client.key")
          ∷ []);
    }
      ∷ record {
        name = lit "etcd-ca";
        source = secret secret_name (key_to_path (lit "etcd-client-ca.crt") (lit "ca.crt") ∷ []);
      }
      ∷ []

-- `if image == "" { image = fallback }`
abbrev pub image_or : Str → Str → Str
image_or image fallback = if is_empty image then fallback else image

abbrev bind : {A B : Type 0} → Result A → (A → Result B) → Result B
bind (ok a) f = f a
bind (err e) f = err e
bind (panic p) f = panic p

module _ (E : Env) where
  must_parse : Str → Reply E.Quantity → Result E.Quantity
  must_parse s (value q) = ok q
  must_parse s (failure _) = panic (lit "invalid quantity: " ++ s)

  unfoldable pub must_parse_quantity : Str → Result E.Quantity
  unfolding must_parse
  must_parse_quantity s = must_parse s (E.parse_quantity s)

  -- A memory and a CPU quantity.
  abbrev resources : String → String → Result (Resources E.Quantity)
  resources memory cpu =
      bind (must_parse_quantity (lit memory))
        λ m. bind (must_parse_quantity (lit cpu)) λ c. ok (record { memory = m; cpu = c })

  -- What the two pod specs have in common.
  abbrev pod_spec : List (Container E.Quantity) → List Volume → PodSpec E.Quantity
  pod_spec containers volumes = record {
    service_account_name = lit "etcd-snapshot-executor";
    restart_policy = lit "Never";
    run_as_non_root = true;
    run_as_user = pos 65534;
    fs_group = pos 65534;
    seccomp_profile = lit "RuntimeDefault";
    containers = containers;
    volumes = volumes;
  }

  abbrev job : Str → Str → JobConfig → PodSpec E.Quantity → Job E.Quantity
  job prefix operation cfg spec = record {
    meta = record {
      name = prefix ++ cfg.snapshot_id;
      namespace = cfg.namespace;
      labels =
          (lit "app", lit "etcd-snapshot-driver")
          ∷ (lit "operation", operation)
          ∷ (lit "snapshot-id", cfg.snapshot_id)
          ∷ [];
      resource_version = [];
    };
    ttl_seconds_after_finished = pos 3600;
    backoff_limit = cfg.backoff_limit;
    active_deadline_seconds = cfg.active_deadline_seconds;
    template_labels =
        (lit "app", lit "etcd-snapshot-driver") ∷ (lit "snapshot-id", cfg.snapshot_id) ∷ [];
    template = spec;
    counts = record { active = pos 0; succeeded = pos 0; failed = pos 0 };
  }

  unfoldable pub generate_snapshot_save_job : JobConfig → Result (Job E.Quantity)
  unfolding must_parse_quantity save_mounts save_volumes
  generate_snapshot_save_job cfg = bind (resources "256Mi" "100m") λ requests.
      bind (resources "512Mi" "500m") λ limits. ok (
        job (lit "etcd-snapshot-save-") (lit "snapshot-save") cfg (
          pod_spec
            (record {
              name = lit "etcd-snapshot";
              image = image_or cfg.etcd_image (lit "quay.io/coreos/etcd:v3.5.0");
              command = lit "sh" ∷ lit "-c" ∷ build_snapshot_command cfg ∷ [];
              volume_mounts = save_mounts cfg.tls_enabled;
              allow_privilege_escalation = false;
              dropped_capabilities = lit "ALL" ∷ [];
              read_only_root_filesystem = true;
              requests = requests;
              limits = limits;
            }
              ∷ [])
            (save_volumes cfg.tls_enabled cfg.snapshot_pvc_name cfg.tls_secret_name)))

  unfoldable pub generate_snapshot_delete_job : JobConfig → Result (Job E.Quantity)
  unfolding must_parse_quantity
  generate_snapshot_delete_job cfg = bind (resources "32Mi" "50m") λ requests.
      bind (resources "128Mi" "100m") λ limits. ok (
        job (lit "etcd-snapshot-delete-") (lit "snapshot-delete") cfg (
          pod_spec
            (record {
              name = lit "rm";
              image = image_or cfg.busybox_image (lit "busybox:1.35");
              command = lit "rm" ∷ lit "-f" ∷ snapshot_path cfg.snapshot_id ∷ [];
              volume_mounts = base_mounts;
              allow_privilege_escalation = false;
              dropped_capabilities = lit "ALL" ∷ [];
              read_only_root_filesystem = true;
              requests = requests;
              limits = limits;
            }
              ∷ [])
            (base_volumes cfg.snapshot_pvc_name)))

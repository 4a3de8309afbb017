-- ===== src/Tests/Creation.antt =====
-- Examples for the creation of a group snapshot.
use etcd_snapshot_driver.Common.{
  ◌⊎◌, Str, lit, str_eq, true, none, List, [], ◌∷◌, value, failure, Error, status,
  failed_precondition, error_text, ok, err, ◌≡◌, ◌≢◌, ◌↔◌, refl,
}
use etcd_snapshot_driver.Common.Dict.{lookup}
use etcd_snapshot_driver.Common.Decimal.{itoa}
use etcd_snapshot_driver.Fake.{not_found_error, laws-IsReliable, Answers, world, laws}
use etcd_snapshot_driver.Codec.{codecs, group_codec-IsFaithful}
use etcd_snapshot_driver.Volume.{parse_volume_id}
use etcd_snapshot_driver.Job.Template.{generate_snapshot_save_job}
use etcd_snapshot_driver.Job.Executor.{judge, execute_snapshot_job}
use etcd_snapshot_driver.Snapshot.Manager.{
  store_snapshot_metadata, store_group_snapshot_metadata, single_kind, group_kind,
}
use etcd_snapshot_driver.Snapshot.Table.{Contents}
use etcd_snapshot_driver.Etcd.Health.{validate_health}
use etcd_snapshot_driver.Etcd.Discovery.{
  cluster_of_pods, endpoint, new_discovery, discover_cluster, validate_cluster_health,
}
use etcd_snapshot_driver.Controller.Types.{
  CreateRequest, GroupSnapshot, stamped, metadata_namespace,
}
use etcd_snapshot_driver.Controller.Checks.{Found, check_request}
use etcd_snapshot_driver.Controller.Checks.Validation.{
  AreParsed, IsUniform, volumes_of, check_request-ok,
}
use etcd_snapshot_driver.Provisioner.{Provisioner, ensure_snapshot_pvc}
use etcd_snapshot_driver.Provisioner.Ensured.{
  IsThere, IsMissing, IsFound, look, creation, ensure_snapshot_pvc_iff,
}
use etcd_snapshot_driver.Controller.Create.Recorded.{IsFoundAgain, create_found}
use etcd_snapshot_driver.Controller.Create.{discovery, create_volume_group_snapshot}
use etcd_snapshot_driver.Controller.Create.Rejected.{create_rejected}
use etcd_snapshot_driver.Controller.Checks.Guards.{AllBound, AllHealthy}
use etcd_snapshot_driver.Controller.Create.Guarded.{create-Guarded}
use etcd_snapshot_driver.Controller.Create.Succeeds.{Answered, Takes, create-ok_iff}
use etcd_snapshot_driver.Tests.World.{volume_id, data_pvc, good, no_maps, config, reads}

abbrev found : Found
found = record {
  cluster_infos =
      record {
        index = 0;
        info =
            cluster_of_pods (lit "prod") (lit "main")
              (record { name = lit "etcd-0"; containers = lit "etcd" ∷ [] } ∷ []);
        volume_info = record {
          namespace = lit "prod";
          name = lit "data-etcd-0";
          original_id = volume_id;
        };
      }
      ∷ [];
  first_cluster_name = lit "main";
  first_cluster_endpoints =
      endpoint (lit "prod") (record { name = lit "etcd-0"; containers = lit "etcd" ∷ [] }) ∷ [];
}

passes :
    (check_request
      (world good)
      (discovery (world good) config)
      (lit "backup")
      (volume_id ∷ [])
      no_maps).0
    ≡ ok found
unfolding check_request parse_volume_id str_eq lit new_discovery discover_cluster
    validate_cluster_health validate_health lookup
passes = refl

check_request-ok_example :
    (lit "backup" ≢ [])
    × (◌≢◌ {A = List Str} (volume_id ∷ []) [])
    × AreParsed (volume_id ∷ []) (volumes_of found)
    × IsUniform found
check_request-ok_example =
    check_request-ok (world good) (discovery (world good) config) (lit "backup") (volume_id ∷ [])
      no_maps passes

abbrev Same : Contents → Type 0
Same s = s (lit "kube-system") (lit "x") ≡ none

abbrev bad_ids : List Str
bad_ids = volume_id ∷ lit "prod/" ∷ []

abbrev pub request : List Str → CreateRequest
request ids = record { name = lit "backup"; source_volume_ids = ids }

-- A PVC that is not bound yet.
abbrev pending : Answers
pending = record good { pvc = value (record data_pvc { phase = lit "Pending" }) }

abbrev pending_error : Error
pending_error =
    status failed_precondition
      (lit "PVC validation failed for volume 0: PVC not bound, current phase: Pending")

pending_refused :
    (check_request
      (world pending)
      (discovery (world pending) config)
      (lit "backup")
      (volume_id ∷ [])
      no_maps).0
    ≡ err pending_error
unfolding check_request parse_volume_id str_eq lit error_text itoa
pending_refused = refl

create_rejected_example :
    ((create_volume_group_snapshot
        (world pending)
        config
        codecs
        (request (volume_id ∷ []))
        no_maps).0
      ≡ err pending_error)
    × Same
        (create_volume_group_snapshot
          (world pending)
          config
          codecs
          (request (volume_id ∷ []))
          no_maps).1
create_rejected_example =
    create_rejected (world pending) config codecs (request (volume_id ∷ [])) Same no_maps
      (reads pending Same) pending_refused refl

abbrev clock_name : Str
clock_name = stamped (lit "backup") good.clock

abbrev pub created : GroupSnapshot
created = record {
  group_snapshot_id = clock_name;
  snapshots =
      record {
        snapshot_id = stamped clock_name good.clock;
        source_volume_id = volume_id;
        creation_time = good.clock;
        ready_to_use = true;
      }
      ∷ [];
  creation_time = good.clock;
  ready_to_use = true;
}

pub creates :
    (create_volume_group_snapshot (world good) config codecs (request (volume_id ∷ [])) no_maps).0
    ≡ ok created
unfolding create_volume_group_snapshot lit str_eq lookup parse_volume_id check_request
    discover_cluster new_discovery validate_cluster_health validate_health ensure_snapshot_pvc
    generate_snapshot_save_job execute_snapshot_job judge store_snapshot_metadata
    store_group_snapshot_metadata metadata_namespace single_kind group_kind
creates = refl

create_found_example :
    IsFoundAgain
      (world good)
      codecs
      created
      (create_volume_group_snapshot (world good) config codecs (request (volume_id ∷ [])) no_maps).1
create_found_example =
    create_found (world good) (laws good) (laws-IsReliable good refl) codecs group_codec-IsFaithful
      (λ m. refl) (λ m. refl) (λ s. refl) config (request (volume_id ∷ [])) no_maps creates

abbrev missing_pvc : Answers
missing_pvc = record good { pvc = failure not_found_error }

abbrev store_provisioner : Provisioner
store_provisioner = record { storage_class = []; pvc_size = lit "10Gi" }

ensure_snapshot_pvc_iff_example :
    ((ensure_snapshot_pvc (world missing_pvc) store_provisioner (lit "prod") no_maps).0
      ≡ ok (lit "etcd-snapshots"))
    ↔ (IsFound (look (world missing_pvc) store_provisioner (lit "prod") no_maps).0
        ⊎ (IsMissing (look (world missing_pvc) store_provisioner (lit "prod") no_maps).0
            × ((q : Str) × ((world missing_pvc).parse_quantity store_provisioner.pvc_size ≡ value q)
                × IsThere
                    (creation (world missing_pvc) store_provisioner (lit "prod") no_maps q).0)))
ensure_snapshot_pvc_iff_example =
    ensure_snapshot_pvc_iff (world missing_pvc) store_provisioner (lit "prod") no_maps

create-ok_iff_example :
    Answered
      (create_volume_group_snapshot (world good) config codecs (request (volume_id ∷ [])) no_maps)
    ↔ (let (t, s₁) = (world good).now no_maps in
        let (checked, s₂) =
          check_request
            (world good)
            (discovery (world good) config)
            (lit "backup")
            (volume_id ∷ [])
            s₁ in
        (f : Found) × (checked ≡ ok f)
        × Takes (world good) config (stamped (lit "backup") t) f.cluster_infos s₂)
create-ok_iff_example = create-ok_iff (world good) config codecs (request (volume_id ∷ [])) no_maps

-- Nothing has been written yet.
abbrev Untouched : Contents → Type 0
Untouched s = s ≡ no_maps

create-Guarded_example :
    (f : Found) × (t : Contents) × Untouched t
    × AreParsed (volume_id ∷ []) (volumes_of f)
    × AllBound (world good) Untouched (volumes_of f)
    × IsUniform f
    × AllHealthy (world good) Untouched (discovery (world good) config) f.cluster_infos
    × Takes (world good) config (stamped (lit "backup") good.clock) f.cluster_infos t
create-Guarded_example =
    create-Guarded (world good) Untouched (reads good Untouched) config codecs
      (request (volume_id ∷ [])) no_maps refl (created, creates)

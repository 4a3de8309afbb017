-- ===== src/Tests/Service.antt =====
-- Examples for sequences of requests, and for what a request shows of its job and its files.
use etcd_snapshot_driver.Common.{
  Str, lit, true, false, none, List, [], ◌∷◌, map, value, ok, is_panic, pos, ◌≡◌, ◌≢◌, ◌↔◌, refl,
}
use etcd_snapshot_driver.Kube.{Job}
use etcd_snapshot_driver.Fake.{laws-IsReliable, world, laws}
use etcd_snapshot_driver.Codec.{codecs, group_codec-IsFaithful}
use etcd_snapshot_driver.Job.Executor.{execute_snapshot_job}
use etcd_snapshot_driver.Job.Executor.Success.{
  IsStarted, SeenDone, execute_snapshot_job-success_iff,
}
use etcd_snapshot_driver.Snapshot.{GroupSnapshotMetadata}
use etcd_snapshot_driver.Snapshot.Manager.{retrieve_group_snapshot_metadata}
use etcd_snapshot_driver.Snapshot.Table.{Contents, entry}
use etcd_snapshot_driver.Etcd.Tls.{CertFiles, TlsConfig, load_tls_config, load_tls_config-ok_iff}
use etcd_snapshot_driver.Controller.Types.{stamped, Snapshot, metadata_namespace}
use etcd_snapshot_driver.Controller.Checks.{ClusterEntry, Found, check_request}
use etcd_snapshot_driver.Controller.Create.{discovery, create_volume_group_snapshot}
use etcd_snapshot_driver.Controller.Create.Saved.{IsSaved, create-IsSaved}
use etcd_snapshot_driver.Controller.Delete.{delete_volume_group_snapshot}
use etcd_snapshot_driver.Controller.Delete.Gone.{delete_twice}
use etcd_snapshot_driver.Controller.Delete.Removal.{group_entry}
use etcd_snapshot_driver.Controller.Get.{get_volume_group_snapshot}
use etcd_snapshot_driver.Controller.Get.Lookup.{get_panic_iff}
use etcd_snapshot_driver.Controller.Service.{Reach, here, next, created, deleted, IsWellKept}
use etcd_snapshot_driver.Controller.Service.Serving.{
  empty-IsWellKept, reach-IsWellKept, reach_lookup_ends,
}
use etcd_snapshot_driver.Controller.Service.Refines.{LookupAnswers, replay, service_refines}
use etcd_snapshot_driver.Tests.World.{volume_id, good, no_maps, stored, config}
use etcd_snapshot_driver.Tests.Creation.{request, creates}
use etcd_snapshot_driver.Tests.Creation
use etcd_snapshot_driver.Tests.Deletion.{separate, reads_group}
use etcd_snapshot_driver.Tests.Jobs.{save_job}

-- A snapshot is created, and one is deleted.
abbrev after_creation : Contents
after_creation =
    (create_volume_group_snapshot (world good) config codecs (request (volume_id ∷ [])) no_maps).1

abbrev after_deletion : Contents
after_deletion = (delete_volume_group_snapshot (world good) codecs (lit "g-1") after_creation).1

abbrev served : Reach (world good) (laws good) config codecs no_maps after_deletion
served =
    next (next here (created (request (volume_id ∷ [])) no_maps))
      (deleted (lit "g-1") after_creation)

no_groups : (key : Str) → group_entry no_maps key ≡ none
unfolding entry
no_groups key = refl

nothing_kept : IsWellKept codecs no_maps
nothing_kept = empty-IsWellKept codecs no_maps no_groups

reach-IsWellKept_example : IsWellKept codecs after_deletion
reach-IsWellKept_example =
    reach-IsWellKept (world good) (laws good) (separate good) (λ ns p s. refl) codecs
      group_codec-IsFaithful config served nothing_kept

-- The group that was created is still found after another one was deleted.
service_refines_example :
    LookupAnswers Creation.created.group_snapshot_id
      (replay
        (world good)
        (laws good)
        config
        codecs
        served
        (λ _. none)
        Creation.created.group_snapshot_id)
      (get_volume_group_snapshot
        (world good)
        codecs
        Creation.created.group_snapshot_id
        after_deletion).0
unfolding stamped lit
service_refines_example =
    service_refines (world good) (laws good) (laws-IsReliable good refl) (separate good)
      (λ ns p s. refl) (refl, refl, refl, refl) codecs group_codec-IsFaithful (λ m. refl)
      (λ m. refl) config served no_groups Creation.created.group_snapshot_id (λ e. cc)

reach_lookup_ends_example :
    is_panic (get_volume_group_snapshot (world good) codecs (lit "g-1") after_deletion).0 ≡ false
reach_lookup_ends_example =
    reach_lookup_ends (world good) (laws good) (separate good) (λ ns p s. refl) codecs
      group_codec-IsFaithful config served no_groups (lit "g-1")

get_panic_iff_example :
    (is_panic (get_volume_group_snapshot (world good) codecs (lit "g-1") stored).0 ≡ true) ↔ (
      (g : GroupSnapshotMetadata) × (lit "g-1" ≢ [])
      × ((retrieve_group_snapshot_metadata
            (world good)
            metadata_namespace
            codecs
            (lit "g-1")
            stored).0
          ≡ ok g)
      × (g.source_volume_ids ≡ []))
get_panic_iff_example = get_panic_iff (world good) codecs (lit "g-1") stored

create-IsSaved_example :
    (f : Found) × (first : ClusterEntry) × (rest : List ClusterEntry) × (id : Str) × ((check_request
        (world good)
        (discovery (world good) config)
        (lit "backup")
        (volume_id ∷ [])
        ((world good).now no_maps).1).0
      ≡ ok f)
    × (f.cluster_infos ≡ first ∷ rest)
    × (map (λ (x : Snapshot). x.snapshot_id) Creation.created.snapshots ≡ id ∷ [])
    × IsSaved (world good) config first id
create-IsSaved_example =
    create-IsSaved (world good) config codecs (request (volume_id ∷ [])) no_maps creates

execute_snapshot_job-success_iff_example :
    ((execute_snapshot_job (world good) save_job (pos 5) no_maps).0.1 ≡ none) ↔ (
      let (reply, s₂) =
        (world good).create_job save_job.meta.namespace save_job ((world good).now no_maps).1 in
      (j' : Job Str) × IsStarted (world good) save_job reply j'
      × SeenDone (world good) j' (pos 5) s₂)
execute_snapshot_job-success_iff_example =
    execute_snapshot_job-success_iff (world good) save_job (pos 5) no_maps

delete_twice_example :
    let s' = (delete_volume_group_snapshot (world good) codecs (lit "g-1") stored).1 in
    ((delete_volume_group_snapshot (world good) codecs (lit "g-1") s').0 ≡ ok tt)
    × ((delete_volume_group_snapshot (world good) codecs (lit "g-1") s').1 ≡ s')
unfolding lit
delete_twice_example =
    delete_twice (world good) (laws good) codecs (laws-IsReliable good refl) (separate good)
      (refl, refl, refl, refl) (lit "g-1") stored (λ e. cc) reads_group

-- Files that can all be read.
abbrev files : CertFiles
files = record {
  State = Unit;
  Certificate = Str × Str;
  CertPool = List Str;
  load_x509_key_pair = λ cert key s. (value (cert, key), s);
  read_file = λ path s. (value path, s);
  new_cert_pool = [];
  append_certs_from_pem = λ pem pool. (true, pem ∷ pool);
}

abbrev tls : TlsConfig files
tls = record { certificates = (lit "crt", lit "key") ∷ []; root_cas = lit "ca" ∷ [] }

load_tls_config-ok_iff_example :
    ((load_tls_config files (lit "crt") (lit "key") (lit "ca") tt).0 ≡ ok tls) ↔ (
      let (loaded, s₁) = files.load_x509_key_pair (lit "crt") (lit "key") tt in
      (cert : Str × Str) × (pem : Str) × (loaded ≡ value cert)
      × ((files.read_file (lit "ca") s₁).0 ≡ value pem)
      × (files.append_certs_from_pem pem files.new_cert_pool ≡ (true, tls.root_cas))
      × (tls.certificates ≡ cert ∷ []))
load_tls_config-ok_iff_example =
    load_tls_config-ok_iff files (lit "crt") (lit "key") (lit "ca") tt tls

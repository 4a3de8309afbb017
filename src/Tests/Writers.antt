-- ===== src/Tests/Writers.antt =====
-- Examples for ConfigMaps that others write too.
use etcd_snapshot_driver.Common.{Str, lit, none, some, [], ◌∷◌, is_panic, false, ◌≡◌, refl, str_eq}
use etcd_snapshot_driver.Snapshot.Manager.{group_kind, store_entry, delete_entry}
use etcd_snapshot_driver.Snapshot.Table.Shared.{SetsAtomically}
use etcd_snapshot_driver.Snapshot.Table.Shared.Atomic.{store_entry-Atomic, delete_entry-Atomic}
use etcd_snapshot_driver.Tests.Busy.{Versioned, set_map, intruded, busy}
use etcd_snapshot_driver.Tests.Busy.Laws.{
  map_of, busy_laws, polite_laws, Polite-refl, Polite-intruded, found_missing,
}
use etcd_snapshot_driver.Codec.{codecs, group_codec-IsFaithful}
use etcd_snapshot_driver.Snapshot.Table.{entry}
use etcd_snapshot_driver.Snapshot.Table.Shared.{SharedLaws}
use etcd_snapshot_driver.Controller.Types.{metadata_namespace}
use etcd_snapshot_driver.Controller.Create.{create_volume_group_snapshot}
use etcd_snapshot_driver.Controller.Get.{get_volume_group_snapshot}
use etcd_snapshot_driver.Controller.Delete.Removal.{group_entry}
use etcd_snapshot_driver.Controller.Service.{IsWellKept}
use etcd_snapshot_driver.Controller.Service.Serving.{empty-IsWellKept}
use etcd_snapshot_driver.Controller.Service.Shared.{
  IsShared, SharedReach, here, next, created, shared_reach-IsWellKept,
}
use etcd_snapshot_driver.Tests.World.{volume_id, config}
use etcd_snapshot_driver.Tests.Creation.{request}

-- No ConfigMap yet, and one that has an entry.
abbrev nothing : Versioned
nothing ns name = ([], none)

abbrev occupied : Versioned
occupied =
    set_map nothing (lit "kube-system") group_kind.config_map_name ((lit "g", lit "text") ∷ [])

store_entry-Atomic_example :
    SetsAtomically busy_laws occupied
      (lit "kube-system")
      group_kind.config_map_name
      (lit "h")
      (some (lit "new"))
      (store_entry busy (lit "kube-system") group_kind (lit "h") (lit "new") occupied)
store_entry-Atomic_example =
    store_entry-Atomic busy busy_laws (lit "kube-system") group_kind (lit "h") (lit "new") occupied

delete_entry-Atomic_example :
    SetsAtomically busy_laws occupied
      (lit "kube-system")
      group_kind.config_map_name
      (lit "g")
      none
      (delete_entry busy (lit "kube-system") group_kind (lit "g") occupied)
delete_entry-Atomic_example =
    delete_entry-Atomic busy busy_laws (lit "kube-system") group_kind (lit "g") occupied (
      found_missing occupied (lit "kube-system") group_kind.config_map_name
        (occupied (lit "kube-system") group_kind.config_map_name).1)

-- The other writer leaves the table of groups as it should be.
abbrev Well : Versioned → Type 0
Well s = IsWellKept codecs (map_of s)

intruded_elsewhere :
    (s : Versioned) (key : Str) → group_entry (map_of (intruded s)) key ≡ group_entry (map_of s) key
unfolding entry set_map metadata_namespace group_kind str_eq lit
intruded_elsewhere s key = refl

intruded-Well : (s : Versioned) → Well s → Well (intruded s)
intruded-Well s well key text h = well key text (rw (intruded_elsewhere s key) at h)

abbrev well_laws : SharedLaws busy
well_laws = polite_laws Well intruded-Well

shared : IsShared busy well_laws
shared = record {
  reads = λ P closed. record {
    now = λ s p. p;
    ticks = λ t s p. p;
    get_pvc = λ ns name s p. p;
    list_pods = λ ns sel s p. p;
    pod_logs = λ ns name s p. p;
    get_config_map = λ ns name s p. closed s (intruded s) (Polite-intruded Well intruded-Well s) p;
    get_job = λ ns name s p. p;
    new_client = λ urls tls s p. p;
    member_list = λ c s p. p;
    get_key = λ c key s p. p;
    close_client = λ c s p. p;
  };
  jobs = λ ns j s. Polite-refl Well intruded-Well s;
  pvcs = λ ns p s. Polite-refl Well intruded-Well s;
}

nothing_kept : Well nothing
unfolding entry
nothing_kept = empty-IsWellKept codecs (map_of nothing) (λ key. refl)

-- A group is created, while the other driver writes.
abbrev after_creation : Versioned
after_creation =
    (create_volume_group_snapshot busy config codecs (request (volume_id ∷ [])) nothing).1

abbrev served : SharedReach busy well_laws config codecs nothing after_creation
served = next here (created (request (volume_id ∷ [])) nothing)

shared_reach-IsWellKept_example :
    IsWellKept codecs (map_of after_creation)
    × ((id : Str) → is_panic (get_volume_group_snapshot busy codecs id after_creation).0 ≡ false)
shared_reach-IsWellKept_example =
    shared_reach-IsWellKept busy well_laws shared codecs group_codec-IsFaithful
      (λ s t wrote kept. wrote.1 kept) config served nothing_kept

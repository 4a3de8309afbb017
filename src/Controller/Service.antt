-- ===== src/Controller/Service.antt =====
-- The group controller as a whole (internal/driver/groupcontroller.go): the requests that it serves
-- one after the other, each of which takes the state of the world to another.
pub mod Writes
pub mod Serving
pub mod Refines
pub mod Shared
use etcd_snapshot_driver.Common.{Str, Option, some, [], ◌≡◌, ◌≢◌, value}
use etcd_snapshot_driver.Env.{Env}
use etcd_snapshot_driver.Snapshot.{GroupSnapshotMetadata, Codecs}
use etcd_snapshot_driver.Snapshot.Table.{Contents, ConfigMapLaws}
use etcd_snapshot_driver.Controller.Types.{ControllerConfig, CreateRequest}
use etcd_snapshot_driver.Controller.Create.{create_volume_group_snapshot}
use etcd_snapshot_driver.Controller.Get.{get_volume_group_snapshot}
use etcd_snapshot_driver.Controller.Delete.{delete_volume_group_snapshot}
use etcd_snapshot_driver.Controller.Delete.Removal.{group_entry}

module _ (E : Env) (L : ConfigMapLaws E) (cfg : ControllerConfig) (cs : Codecs) where
  -- One request is served, whatever it answers; or something else happens in the cluster, which leaves
  -- the ConfigMaps alone.
  pub data Step : E.State → E.State → Type 0 where
    created :
        (req : CreateRequest) (s : E.State) → Step s (create_volume_group_snapshot E cfg cs req s).1
    deleted : (id : Str) (s : E.State) → Step s (delete_volume_group_snapshot E cs id s).1
    looked_up : (id : Str) (s : E.State) → Step s (get_volume_group_snapshot E cs id s).1
    elsewhere : {s t : E.State} → L.maps t ≡ L.maps s → Step s t

  pub data Reach (s : E.State) : E.State → Type 0 where
    here : Reach s s
    next : {t u : E.State} → Reach s t → Step t u → Reach s u

-- Every entry in the table of groups can be read, says whose it is, and names a volume.
abbrev pub IsWellKept : Codecs → Contents → Type 0
IsWellKept cs m =
    (key text : Str)
    → group_entry m key ≡ some text
    → (g : GroupSnapshotMetadata) × (cs.group.unmarshal text ≡ value g)
      × (g.group_snapshot_id ≡ key)
      × (g.source_volume_ids ≢ [])

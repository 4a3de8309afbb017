-- ===== src/Snapshot/Table/Shared.antt =====
-- The manager where other writers change the ConfigMaps while a call runs: every call of the API takes
-- effect at a moment of its own, and others may write before and after it. The server keeps updates
-- apart by the resource version.
pub mod Atomic
use etcd_snapshot_driver.Common.{
  Str, true, Option, none, some, [], ◌≡◌, ◌≢◌, LibError, Reply, value, failure, Result, ok, err,
  panic,
}
use etcd_snapshot_driver.Env.{Env}
use etcd_snapshot_driver.Kube.{ConfigMap}
use etcd_snapshot_driver.Snapshot.Manager.{contents}
use etcd_snapshot_driver.Snapshot.Table.{Contents, put_map, IsPut}

-- The documented behaviour of the API. `Others s s'` says that other writers may have brought the
-- state from `s` to `s'`: a ConfigMap that still has its resource version is as it was. `Get` reads,
-- `Create` needs the name to be free, and `Update` needs the ConfigMap to have the resource version
-- that the update carries, where it carries one; a failed call changes nothing.
pub record SharedLaws (E : Env) : Type 1 where
  pub maps : E.State → Contents
  pub version : E.State → Str → Str → Str
  pub Others : E.State → E.State → Type 0
  pub others_refl : (s : E.State) → Others s s
  pub others_trans : (s t u : E.State) → Others s t → Others t u → Others s u
  pub others_version :
      (s t : E.State) (ns name : Str)
      → Others s t
      → version s ns name ≡ version t ns name
      → maps s ns name ≡ maps t ns name
  pub get_value :
      (ns name : Str) (s : E.State) {cm : ConfigMap}
      → (E.get_config_map ns name s).0 ≡ value cm
      → (t : E.State) × Others s t
        × Others t (E.get_config_map ns name s).1
        × (cm.meta.name ≡ name)
        × (cm.meta.resource_version ≢ [])
        × (version t ns name ≡ cm.meta.resource_version)
        × (maps t ns name ≡ some (contents cm.entries))
  pub get_failure :
      (ns name : Str) (s : E.State) {e : LibError}
      → (E.get_config_map ns name s).0 ≡ failure e
      → Others s (E.get_config_map ns name s).1
  pub get_not_found :
      (ns name : Str) (s : E.State) {e : LibError}
      → (E.get_config_map ns name s).0 ≡ failure e
      → e.is_not_found ≡ true
      → (t : E.State) × Others s t
        × Others t (E.get_config_map ns name s).1
        × (maps t ns name ≡ none)
  pub create_value :
      (ns : Str) (cm : ConfigMap) (s : E.State) {r : ConfigMap}
      → (E.create_config_map ns cm s).0 ≡ value r
      → (t : E.State) × (t' : E.State) × Others s t
        × Others t' (E.create_config_map ns cm s).1
        × (maps t ns cm.meta.name ≡ none)
        × (maps t' ≡ put_map (maps t) ns cm.meta.name (contents cm.entries))
  pub create_failure :
      (ns : Str) (cm : ConfigMap) (s : E.State) {e : LibError}
      → (E.create_config_map ns cm s).0 ≡ failure e
      → Others s (E.create_config_map ns cm s).1
  pub update_value :
      (ns : Str) (cm : ConfigMap) (s : E.State) {r : ConfigMap}
      → cm.meta.resource_version ≢ []
      → (E.update_config_map ns cm s).0 ≡ value r
      → (t : E.State) × (t' : E.State) × Others s t
        × Others t' (E.update_config_map ns cm s).1
        × (version t ns cm.meta.name ≡ cm.meta.resource_version)
        × (maps t' ≡ put_map (maps t) ns cm.meta.name (contents cm.entries))
  pub update_failure :
      (ns : Str) (cm : ConfigMap) (s : E.State) {e : LibError}
      → (E.update_config_map ns cm s).0 ≡ failure e
      → Others s (E.update_config_map ns cm s).1

-- A call that succeeds has set the key to `v` in one step, at a moment between its start and its end;
-- one that fails has done nothing. Before and after that moment only others write.
abbrev pub SetsAtomically :
    {E : Env}
    → SharedLaws E
    → E.State
    → Str
    → Str
    → Str
    → Option Str
    → Result Unit × E.State
    → Type 0
SetsAtomically {E} L s ns name key v (ok _, s') =
    (t : E.State) × (t' : E.State) × L.Others s t
    × IsPut (L.maps t) (L.maps t') ns name key v
    × L.Others t' s'
SetsAtomically L s ns name key v (err _, s') = L.Others s s'
SetsAtomically L s ns name key v (panic _, s') = ⊥

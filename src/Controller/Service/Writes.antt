-- ===== src/Controller/Service/Writes.antt =====
-- What the writes of the manager and the jobs make of the table of groups.
use etcd_snapshot_driver.Common.{
  Str, str_eq, str_eq_iff, str_eq_refl, Option, none, some, [], Reply-cases, Bool-cases, value,
  Result, ok, err, panic, ◌≡◌, ◌≢◌, inl, inr, arith,
}
use etcd_snapshot_driver.Env.{Env}
use etcd_snapshot_driver.Env.Frame.{Keeps}
use etcd_snapshot_driver.Snapshot.{SnapshotMetadata, GroupSnapshotMetadata, Codecs, IsFaithful}
use etcd_snapshot_driver.Snapshot.Manager.{
  Kind, single_kind, group_kind, store_entry, delete_entry, store, store_snapshot_metadata,
  store_group_snapshot_metadata,
}
use etcd_snapshot_driver.Snapshot.Table.{Contents, ConfigMapLaws, IsPut, Sets}
use etcd_snapshot_driver.Snapshot.Table.Writes.{
  store_entry-Sets, delete_entry-Sets, delete_entry_unread,
}
use etcd_snapshot_driver.Controller.Types.{metadata_namespace}
use etcd_snapshot_driver.Controller.Delete.Removal.{kinds_differ}
use etcd_snapshot_driver.Controller.Service.{IsWellKept}

module _ (cs : Codecs) where
  -- A removal leaves the other entries, whatever the ConfigMap.
  pub removed :
      (m m' : Contents) (name key : Str)
      → IsPut m m' metadata_namespace name key none
      → IsWellKept cs m
      → IsWellKept cs m'
  removed m m' name key put kept k text h =
      kept k text (ground (arith, put metadata_namespace group_kind.config_map_name k))

  -- A write to the other ConfigMap.
  pub apart :
      (m m' : Contents) (key : Str) (v : Option Str)
      → IsPut m m' metadata_namespace single_kind.config_map_name key v
      → IsWellKept cs m
      → IsWellKept cs m'
  apart m m' key v put kept k text h =
      kept k text
        (ground (arith, kinds_differ, put metadata_namespace group_kind.config_map_name k))

  -- A write of an entry that is as it should be.
  pub entered :
      (m m' : Contents) (g : GroupSnapshotMetadata) (text : Str)
      → IsPut m m' metadata_namespace group_kind.config_map_name g.group_snapshot_id (some text)
      → cs.group.unmarshal text ≡ value g
      → g.source_volume_ids ≢ []
      → IsWellKept cs m
      → IsWellKept cs m'
  entered m m' g text put decoded named kept k text' h =
      elim (Bool-cases (str_eq g.group_snapshot_id k)) [
        | inl own ↦
            let same : text ≡ text' = ground (
              arith,
              put metadata_namespace group_kind.config_map_name k,
              str_eq_refl metadata_namespace,
              str_eq_refl group_kind.config_map_name,
            ) in
            (g, rw (← same) decoded, (str_eq_iff g.group_snapshot_id k).0 own, named)
        | inr other ↦
            kept k text' (ground (arith, put metadata_namespace group_kind.config_map_name k))
      ]

module _ (E : Env) (L : ConfigMapLaws E) (cs : Codecs) where
  abbrev pub Kept : E.State → Type 0
  Kept s = IsWellKept cs (L.maps s)

  Sets-Kept :
      (s : E.State) (name key : Str) (v : Option Str) (p : Result Unit × E.State)
      → (IsPut (L.maps s) (L.maps p.1) metadata_namespace name key v → Kept s → Kept p.1)
      → Sets L.maps s metadata_namespace name key v p
      → Kept s
      → Kept p.1
  Sets-Kept s name key v (ok _, s') put h kept = put h kept
  Sets-Kept s name key v (err _, s') put h kept = rw h kept
  Sets-Kept s name key v (panic _, s') put h kept = absurd h

  pub delete_entry-Kept :
      (kind : Kind) (key : Str) → Keeps Kept (delete_entry E metadata_namespace kind key)
  delete_entry-Kept kind key s kept =
      elim (Reply-cases (E.get_config_map metadata_namespace kind.config_map_name s).0) [
        | inl (cm, e) ↦
            Sets-Kept s kind.config_map_name key none (delete_entry E metadata_namespace kind key s)
              (removed cs _ _ kind.config_map_name key)
              (delete_entry-Sets E L metadata_namespace kind key s (λ x f. cc)) kept
        | inr (x, e) ↦ rw ((delete_entry_unread E L metadata_namespace kind key s e).1) kept
      ]

  pub store_single-Kept :
      (m : SnapshotMetadata) → Keeps Kept (store_snapshot_metadata E metadata_namespace cs m)
  unfolding store_snapshot_metadata store
  store_single-Kept m s kept = elim (Reply-cases (cs.single.marshal m)) [
    | inl (text, e) ↦
        rw (e, store)
          (Sets-Kept s single_kind.config_map_name m.snapshot_id (some text)
            (store_entry E metadata_namespace single_kind m.snapshot_id text s)
            (apart cs _ _ m.snapshot_id (some text))
            (store_entry-Sets E L metadata_namespace single_kind m.snapshot_id text s) kept)
    | inr (x, e) ↦ rw (e, store) kept
  ]

  pub store_group-Kept :
      IsFaithful cs.group
      → (g : GroupSnapshotMetadata) → g.source_volume_ids ≢ []
      → Keeps Kept (store_group_snapshot_metadata E metadata_namespace cs g)
  unfolding store_group_snapshot_metadata store
  store_group-Kept faithful g named s kept = elim (Reply-cases (cs.group.marshal g)) [
    | inl (text, e) ↦
        rw (e, store)
          (Sets-Kept s group_kind.config_map_name g.group_snapshot_id (some text)
            (store_entry E metadata_namespace group_kind g.group_snapshot_id text s)
            (λ put. entered cs _ _ g text put (faithful.unmarshal-marshal g e) named)
            (store_entry-Sets E L metadata_namespace group_kind g.group_snapshot_id text s) kept)
    | inr (x, e) ↦ rw (e, store) kept
  ]

-- ===== src/Snapshot/Manager.antt =====
-- `Manager` (internal/snapshot/metadata.go). The three operations on snapshots and the three on
-- groups differ in the ConfigMap, the key and the texts, which a `Kind` holds.
pub mod Ends
use etcd_snapshot_driver.Common.{
  Str, lit, Option, none, some, [], ◌∷◌, ◌++◌, Reply, value, failure, LibError, Error, errorf,
  wrapped, lib, Result, Act, pure, throw,
}
use etcd_snapshot_driver.Common.Dict
use etcd_snapshot_driver.Common.Dict.{Dict}
use etcd_snapshot_driver.Env.{Env}
use etcd_snapshot_driver.Kube.{ConfigMap}
use etcd_snapshot_driver.Snapshot.{SnapshotMetadata, GroupSnapshotMetadata, Codec, Codecs}

pub record Kind : Type 0 where
  pub config_map_name : Str
  pub entry_word : Str  -- "" or "group ", before "metadata"
  pub map_word : Str  -- "" or "group snapshot ", before "ConfigMap"
  pub missing_word : Str  -- "" or "group ", before "snapshot metadata not found"

unfoldable pub single_kind : Kind
single_kind = record {
  config_map_name = lit "etcd-snapshot-metadata";
  entry_word = [];
  map_word = [];
  missing_word = [];
}

unfoldable pub group_kind : Kind
group_kind = record {
  config_map_name = lit "etcd-group-snapshot-metadata";
  entry_word = lit "group ";
  map_word = lit "group snapshot ";
  missing_word = lit "group ";
}

-- The text of a failed step on the ConfigMap.
abbrev map_error : Str → Kind → LibError → Error
map_error verb kind e =
    wrapped (lit "failed to " ++ (verb ++ (kind.map_word ++ lit "ConfigMap"))) (lib e)

abbrev entry_error : Str → Kind → LibError → Error
entry_error verb kind e =
    wrapped (lit "failed to " ++ (verb ++ (kind.entry_word ++ lit "metadata"))) (lib e)

-- The entries as Go reads them: a nil map has none.
abbrev pub contents : Option Dict → Dict
contents none = []
contents (some d) = d

-- A new ConfigMap with one entry.
abbrev pub new_config_map : Kind → Str → Str → Str → ConfigMap
new_config_map kind namespace key text = record {
  meta = record {
    name = kind.config_map_name;
    namespace = namespace;
    labels = (lit "app", lit "etcd-snapshot-driver") ∷ [];
    resource_version = [];
  };
  entries = some ((key, text) ∷ []);
}

-- A write whose answer is dropped, and whose error is returned after `f` has been put around it.
abbrev pub answer : {A S : Type 0} → (LibError → Error) → Reply A × S → Result Unit × S
answer f (value _, s') = pure tt s'
answer f (failure e, s') = throw (f e) s'

module _ (E : Env) (namespace : Str) where
  -- Get the ConfigMap; create it if that fails, whatever the error; else write the entry.
  unfoldable pub store_entry : Kind → Str → Str → Act E.State Unit
  store_entry kind key text s =
      let (reply, s₁) = E.get_config_map namespace kind.config_map_name s in
      elim reply [
        | failure _ ↦
            answer (map_error (lit "create ") kind)
              (E.create_config_map namespace (new_config_map kind namespace key text) s₁)
        | value cm ↦ answer (map_error (lit "update ") kind) (
            E.update_config_map namespace
              (record cm { entries = some (Dict.insert key text (contents cm.entries)) }) s₁)
      ]

  abbrev pub delete_from : Kind → Str → ConfigMap → Act E.State Unit
  delete_from kind key cm s = elim (Dict.lookup key (contents cm.entries)) [
    | none ↦ pure tt s
    | some _ ↦ answer (map_error (lit "update ") kind) (
        E.update_config_map namespace
          (record cm { entries = some (Dict.erase key (contents cm.entries)) }) s)
  ]

  unfoldable pub delete_entry : Kind → Str → Act E.State Unit
  delete_entry kind key s =
      let (reply, s₁) = E.get_config_map namespace kind.config_map_name s in
      elim reply [ failure _ ↦ pure tt s₁ | value cm ↦ delete_from kind key cm s₁ ]

  module _ {A : Type 0} (c : Codec A) (kind : Kind) where
    unfoldable pub store : Str → A → Act E.State Unit
    unfolding store_entry
    store key a s = elim (c.marshal a) [
      | failure e ↦ throw (entry_error (lit "marshal ") kind e) s
      | value text ↦ store_entry kind key text s
    ]

    -- What the ConfigMap says of a key.
    abbrev pub decode : Str → ConfigMap → Act E.State A
    decode key cm s = elim (Dict.lookup key (contents cm.entries)) [
      | none ↦ throw (errorf (kind.missing_word ++ (lit "snapshot metadata not found: " ++ key))) s
      | some text ↦ elim (c.unmarshal text) [
        | failure e ↦ throw (entry_error (lit "unmarshal ") kind e) s
        | value a ↦ pure a s
      ]
    ]

    unfoldable pub retrieve : Str → Act E.State A
    retrieve key s =
        let (reply, s₁) = E.get_config_map namespace kind.config_map_name s in
        elim reply [
          | failure e ↦ throw (map_error (lit "get ") kind e) s₁
          | value cm ↦ decode key cm s₁
        ]

  module _ (cs : Codecs) where
    unfoldable pub store_snapshot_metadata : SnapshotMetadata → Act E.State Unit
    unfolding store
    store_snapshot_metadata m = store cs.single single_kind m.snapshot_id m

    unfoldable pub retrieve_snapshot_metadata : Str → Act E.State SnapshotMetadata
    unfolding retrieve
    retrieve_snapshot_metadata = retrieve cs.single single_kind

    unfoldable pub store_group_snapshot_metadata : GroupSnapshotMetadata → Act E.State Unit
    unfolding store
    store_group_snapshot_metadata m = store cs.group group_kind m.group_snapshot_id m

    unfoldable pub retrieve_group_snapshot_metadata : Str → Act E.State GroupSnapshotMetadata
    unfolding retrieve
    retrieve_group_snapshot_metadata = retrieve cs.group group_kind

  unfoldable pub delete_snapshot_metadata : Str → Act E.State Unit
  unfolding delete_entry
  delete_snapshot_metadata = delete_entry single_kind

  unfoldable pub delete_group_snapshot_metadata : Str → Act E.State Unit
  unfolding delete_entry
  delete_group_snapshot_metadata = delete_entry group_kind

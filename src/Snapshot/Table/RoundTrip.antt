-- ===== src/Snapshot/Table/RoundTrip.antt =====
-- What was stored is read back.
use etcd_snapshot_driver.Common.{
  Str, Option-cases, true, none, some, ◌≡◌, inl, inr, LibError, Reply-cases, value, failure, is_err,
  ok, arith,
}
use etcd_snapshot_driver.Common.Dict.{lookup}
use etcd_snapshot_driver.Env.{Env}
use etcd_snapshot_driver.Kube.{ConfigMap}
use etcd_snapshot_driver.Snapshot.{Codec, IsFaithful}
use etcd_snapshot_driver.Snapshot.Manager.{Kind, contents, store, retrieve}
use etcd_snapshot_driver.Snapshot.Table.{ConfigMapLaws, entry, Sets, Sets-IsPut, entry-IsPut}
use etcd_snapshot_driver.Snapshot.Table.Writes.{store_entry-Sets}

module _ (E : Env) (L : ConfigMapLaws E) (ns : Str) {A : Type 0} (c : Codec A) (kind : Kind) where
  open L use {maps, get_keeps, get_value}

  -- Storing sets the text of the value, and changes nothing if it fails.
  pub store-Sets :
      (key : Str) (a : A) (s : E.State) {text : Str}
      → c.marshal a ≡ value text
      → Sets maps s ns kind.config_map_name key (some text) (store E ns c kind key a s)
  unfolding store
  store-Sets key a s {text} e = rw (e, store) (store_entry-Sets E L ns kind key text s)

  -- Reading leaves the state as the `Get` left it.
  retrieve_state :
      (key : Str) (s : E.State)
      → (retrieve E ns c kind key s).1 ≡ (E.get_config_map ns kind.config_map_name s).1
  unfolding retrieve
  retrieve_state key s = ground arith

  -- Reading changes nothing.
  pub retrieve-keeps : (key : Str) (s : E.State) → maps (retrieve E ns c kind key s).1 ≡ maps s
  retrieve-keeps key s = rw (retrieve_state key s) (get_keeps ns kind.config_map_name s)

  -- A key whose text decodes is read.
  pub retrieve-entry :
      (key : Str) (s : E.State) {cm : ConfigMap} {text : Str} {a : A}
      → (E.get_config_map ns kind.config_map_name s).0 ≡ value cm
      → entry (maps s) ns kind.config_map_name key ≡ some text
      → c.unmarshal text ≡ value a
      → (retrieve E ns c kind key s).0 ≡ ok a
  unfolding retrieve entry
  retrieve-entry key s {cm} {text} e here decoded =
      let found : lookup key (contents cm.entries) ≡ some text =
        rw (get_value ns kind.config_map_name s e).1 at here in
      ground arith

  -- What is read is what the entry decodes to.
  pub retrieve_sound :
      (key : Str) (s : E.State) {a : A}
      → (retrieve E ns c kind key s).0 ≡ ok a
      → (text : Str) × (entry (maps s) ns kind.config_map_name key ≡ some text)
        × (c.unmarshal text ≡ value a)
  unfolding retrieve entry
  retrieve_sound key s {a} h = elim (Reply-cases (E.get_config_map ns kind.config_map_name s).0) [
    | inl (cm, e) ↦ elim (Option-cases (lookup key (contents cm.entries))) [
      | inl missing ↦ absurd (ground arith)
      | inr (text, present) ↦
          (text, rw (get_value ns kind.config_map_name s e).1 present, ground arith)
    ]
    | inr (x, e) ↦ absurd (ground arith)
  ]

  -- A key without an entry is an error.
  pub retrieve_absent :
      (key : Str) (s : E.State)
      → entry (maps s) ns kind.config_map_name key ≡ none
      → is_err (retrieve E ns c kind key s).0 ≡ true
  unfolding retrieve entry
  retrieve_absent key s absent = elim (Reply-cases (E.get_config_map ns kind.config_map_name s).0) [
    | inl (cm, e) ↦
        let missing : lookup key (contents cm.entries) ≡ none =
          rw (get_value ns kind.config_map_name s e).1 at absent in
        ground arith
    | inr (x, e) ↦ ground arith
  ]

  -- A value that was stored is read back, where the server answers the reading: the codec is
  -- faithful, the ConfigMaps follow the laws of the API, and the store reported success.
  pub retrieve-store :
      IsFaithful c
      → (key : Str) (a : A) (s : E.State) {cm : ConfigMap} → (store E ns c kind key a s).0 ≡ ok tt
      → (E.get_config_map ns kind.config_map_name (store E ns c kind key a s).1).0 ≡ value cm
      → (retrieve E ns c kind key (store E ns c kind key a s).1).0 ≡ ok a
  retrieve-store faithful key a s stored got = elim (Reply-cases (c.marshal a)) [
    | inl (text, e) ↦
        retrieve-entry key (store E ns c kind key a s).1 got
          (entry-IsPut _ _ ns kind.config_map_name key (some text) (
            Sets-IsPut maps s ns kind.config_map_name key (some text) (store E ns c kind key a s)
              (store-Sets key a s e) stored))
          (faithful.unmarshal-marshal a e)
    | inr (x, e) ↦ absurd (not_stored x e stored)
  ]
    where
      not_stored :
          (x : LibError) → c.marshal a ≡ failure x → (store E ns c kind key a s).0 ≡ ok tt → ⊥
      not_stored x e h = unfold store in cc (rw (e, store) at h)

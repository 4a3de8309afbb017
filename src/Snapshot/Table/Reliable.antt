-- ===== src/Snapshot/Table/Reliable.antt =====
-- The manager on a server that answers every call that can be answered.
use etcd_snapshot_driver.Common.{
  true-false, sym, ◌∙◌, is_value, Str, true, Option, none, some, LibError, Reply-cases, value,
  failure, ok, ◌≡◌, refl, inl, inr, arith,
}
use etcd_snapshot_driver.Common.Dict
use etcd_snapshot_driver.Common.Dict.{Dict}
use etcd_snapshot_driver.Env.{Env}
use etcd_snapshot_driver.Kube.{ConfigMap}
use etcd_snapshot_driver.Snapshot.{Codec}
use etcd_snapshot_driver.Snapshot.Manager.{
  Kind, contents, new_config_map, store_entry, delete_entry, store,
}
use etcd_snapshot_driver.Snapshot.Table.{ConfigMapLaws, entry, IsPut, Sets-IsPut}
use etcd_snapshot_driver.Snapshot.Table.RoundTrip.{store-Sets}

-- Reading a ConfigMap fails only if it does not exist, creating one only if its name is taken, and
-- changing the entries of one that has just been read does not fail.
pub record IsReliable (E : Env) (L : ConfigMapLaws E) : Type 0 where
  pub reads :
      (ns name : Str) (s : E.State) (e : LibError)
      → (E.get_config_map ns name s).0 ≡ failure e
      → e.is_not_found ≡ true
  pub creates :
      (ns : Str) (cm : ConfigMap) (s : E.State)
      → L.maps s ns cm.meta.name ≡ none
      → is_value (E.create_config_map ns cm s).0 ≡ true
  pub updates :
      (ns name : Str) (s : E.State) {cm : ConfigMap} (d : Dict)
      → (E.get_config_map ns name s).0 ≡ value cm
      → is_value
          (E.update_config_map ns (record cm { entries = some d }) (E.get_config_map ns name s).1).0
        ≡ true

module _ (E : Env) (L : ConfigMapLaws E) (R : IsReliable E L) (ns : Str) where
  store_entry_ok :
      (kind : Kind) (key text : Str) (s : E.State) → (store_entry E ns kind key text s).0 ≡ ok tt
  unfolding store_entry
  store_entry_ok kind key text s =
      elim (Reply-cases (E.get_config_map ns kind.config_map_name s).0) [
        | inl (cm, e) ↦
            rw (e, store_entry)
              (ground (
                arith,
                R.updates ns kind.config_map_name s (Dict.insert key text (contents cm.entries)) e,
              ))
        | inr (x, e) ↦
            let free : L.maps (E.get_config_map ns kind.config_map_name s).1 ns kind.config_map_name
                ≡ none =
              rw (L.get_keeps ns kind.config_map_name s) (
                L.get_not_found ns kind.config_map_name s e
                  (R.reads ns kind.config_map_name s x e)) in
            rw (e, store_entry)
              (ground (
                arith,
                R.creates ns (new_config_map kind ns key text)
                    (E.get_config_map ns kind.config_map_name s).1 free,
              ))
      ]

  -- A value that can be written as JSON is stored.
  pub store_ok :
      {A : Type 0} (c : Codec A) (kind : Kind) (key : Str) (a : A) (s : E.State)
      → is_value (c.marshal a) ≡ true
      → (store E ns c kind key a s).0 ≡ ok tt
  unfolding store
  store_ok c kind key a s h = elim (Reply-cases (c.marshal a)) [
    | inl (text, e) ↦ rw (e, store) (store_entry_ok kind key text s)
    | inr (x, e) ↦ cc (rw e at h)
  ]

  -- Its text is then what the table says of its key, and nothing else changes.
  pub store-IsPut :
      {A : Type 0} (c : Codec A) (kind : Kind) (key : Str) (a : A) (s : E.State)
      → is_value (c.marshal a) ≡ true
      → (text : Str) × (c.marshal a ≡ value text)
        × IsPut
            (L.maps s)
            (L.maps (store E ns c kind key a s).1)
            ns
            kind.config_map_name
            key
            (some text)
  store-IsPut c kind key a s h = elim (Reply-cases (c.marshal a)) [
    | inl (text, e) ↦ (
      text,
      e,
      Sets-IsPut L.maps s ns kind.config_map_name key (some text) (store E ns c kind key a s)
          (store-Sets E L ns c kind key a s e) (store_ok c kind key a s h),
    )
    | inr (x, e) ↦ absurd (true-false (sym h ∙ rw e refl))
  ]

  -- A ConfigMap that says something is read.
  pub get_ok :
      (name key : Str) (s : E.State) {text : Str}
      → entry (L.maps s) ns name key ≡ some text
      → (cm : ConfigMap) × ((E.get_config_map ns name s).0 ≡ value cm)
  unfolding entry
  get_ok name key s here = elim (Reply-cases (E.get_config_map ns name s).0) [
    | inl found ↦ found
    | inr (x, e) ↦
        absurd (missing (rw (L.get_not_found ns name s e (R.reads ns name s x e)) at here))
  ]
    where
      missing : {t : Str} → ◌≡◌ {A = Option Str} none (some t) → ⊥
      missing h = cc

  -- Removing an entry succeeds.
  pub delete_entry_ok :
      (kind : Kind) (key : Str) (s : E.State) → (delete_entry E ns kind key s).0 ≡ ok tt
  unfolding delete_entry
  delete_entry_ok kind key s = elim (Reply-cases (E.get_config_map ns kind.config_map_name s).0) [
    | inl (cm, e) ↦
        rw (e, delete_entry)
          (ground
            (arith, R.updates ns kind.config_map_name s (Dict.erase key (contents cm.entries)) e))
    | inr (x, e) ↦ rw (e, delete_entry) refl
  ]

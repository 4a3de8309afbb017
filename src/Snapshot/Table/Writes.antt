-- ===== src/Snapshot/Table/Writes.antt =====
-- Storing and removing an entry.
use etcd_snapshot_driver.Common.{
  Str, str_eq_iff, true, Option, none, some, [], ◌∷◌, ◌≡◌, refl, ◌∙◌, inl, inr, LibError, Reply,
  Reply-cases, value, failure, Error, ok, Option-cases, arith,
}
use etcd_snapshot_driver.Common.Dict.{Dict, lookup, insert, erase}
use etcd_snapshot_driver.Env.{Env}
use etcd_snapshot_driver.Kube.{ConfigMap}
use etcd_snapshot_driver.Snapshot.Manager.{
  Kind, contents, answer, new_config_map, store_entry, delete_from, delete_entry,
}
use etcd_snapshot_driver.Snapshot.Table.{
  put_map, ConfigMapLaws, entry, IsPut, Sets, put_map-insert, put_map-erase, insert-nil,
  answer-Sets,
}

module _ (E : Env) (L : ConfigMapLaws E) (ns : Str) where
  open L use {
    maps, get_keeps, get_value, get_not_found, create_value, create_failure, update_value,
    update_failure,
  }

  abbrev got : Kind → E.State → Reply ConfigMap × E.State
  got kind s = E.get_config_map ns kind.config_map_name s

  updated-Sets :
      (kind : Kind) (key : Str) (v : Option Str) (s : E.State) (cm : ConfigMap) (d : Dict)
      (f : LibError → Error)
      → (got kind s).0 ≡ value cm
      → IsPut (maps s) (put_map (maps s) ns kind.config_map_name d) ns kind.config_map_name key v
      → Sets maps s ns kind.config_map_name key v
          (answer f (E.update_config_map ns (record cm { entries = some d }) (got kind s).1))
  updated-Sets kind key v s cm d f e put =
      answer-Sets maps s ns kind.config_map_name key v f
        (E.update_config_map ns (record cm { entries = some d }) (got kind s).1)
        (λ r won.
          rw
            (
              update_value ns (record cm { entries = some d }) (got kind s).1 won,
              get_keeps ns kind.config_map_name s,
              (get_value ns kind.config_map_name s e).0,
            )
            put)
        (λ x lost. update_failure ns _ _ lost ∙ get_keeps ns kind.config_map_name s)

  created-Sets :
      (kind : Kind) (key text : Str) (s : E.State) (f : LibError → Error)
      → Sets maps s ns kind.config_map_name key
          (some text)
          (answer f (E.create_config_map ns (new_config_map kind ns key text) (got kind s).1))
  created-Sets kind key text s f =
      answer-Sets maps s ns kind.config_map_name key (some text) f
        (E.create_config_map ns (new_config_map kind ns key text) (got kind s).1)
        (λ r won.
          let (free, set) = create_value ns (new_config_map kind ns key text) (got kind s).1 won in
          let free' : maps s ns kind.config_map_name ≡ none = rw get_keeps at free in
          rw (set, get_keeps ns kind.config_map_name s) (put_new free'))
        (λ x lost. create_failure ns _ _ lost ∙ get_keeps ns kind.config_map_name s)
    where
      put_new :
          maps s ns kind.config_map_name ≡ none
          → IsPut
              (maps s)
              (put_map (maps s) ns kind.config_map_name ((key, text) ∷ []))
              ns
              kind.config_map_name
              key
              (some text)
      put_new free =
          rw (← insert-nil key text)
            (put_map-insert (maps s) ns kind.config_map_name key text [] (inr (free, refl)))

  -- Where the ConfigMaps follow the laws of the API, storing an entry: if it succeeds, the entry is set and every other entry of every ConfigMap is as
  -- it was; if it fails, nothing has changed. It does not panic.
  pub store_entry-Sets :
      (kind : Kind) (key text : Str) (s : E.State)
      → Sets maps s ns kind.config_map_name key (some text) (store_entry E ns kind key text s)
  unfolding store_entry
  store_entry-Sets kind key text s =
      elim (Reply-cases (E.get_config_map ns kind.config_map_name s).0) [
        | inl (cm, e) ↦
            rw (e, store_entry)
              (updated-Sets kind key (some text) s cm (insert key text (contents cm.entries)) _ e (
                put_map-insert (maps s) ns kind.config_map_name key text (contents cm.entries)
                  (inl (get_value ns kind.config_map_name s e).1)))
        | inr (x, e) ↦ rw (e, store_entry) (created-Sets kind key text s _)
      ]

  absent-Sets :
      (kind : Kind) (key : Str) (s : E.State)
      → entry (maps s) ns kind.config_map_name key ≡ none
      → Sets maps s ns kind.config_map_name key none (ok tt, (got kind s).1)
  unfolding entry
  absent-Sets kind key s absent ns' name' key' = rw (get_keeps ns kind.config_map_name s) (
      ground (arith, str_eq_iff ns ns', str_eq_iff kind.config_map_name name', str_eq_iff key key'))

  delete_from-Sets :
      (kind : Kind) (key : Str) (s : E.State) (cm : ConfigMap)
      → (got kind s).0 ≡ value cm
      → Sets maps s ns kind.config_map_name key none (delete_from E ns kind key cm (got kind s).1)
  unfolding entry
  delete_from-Sets kind key s cm e =
      let (_, before) = get_value ns kind.config_map_name s e in
      elim (Option-cases (lookup key (contents cm.entries))) [
        | inl missing ↦ rw (missing, delete_from) (absent-Sets kind key s (rw before missing))
        | inr (text, present) ↦
            rw (present, delete_from)
              (updated-Sets kind key none s cm (erase key (contents cm.entries)) _ e
                (put_map-erase (maps s) ns kind.config_map_name key (contents cm.entries) before))
      ]

  -- Where the ConfigMaps follow the laws of the API, removing an entry, where the only error of reading the ConfigMap is that it does not exist: if it
  -- succeeds, the entry is gone and every other entry of every ConfigMap is as it was; if it fails,
  -- nothing has changed. It does not panic.
  pub delete_entry-Sets :
      (kind : Kind) (key : Str) (s : E.State)
      → ((e : LibError) → (got kind s).0 ≡ failure e → e.is_not_found ≡ true)
      → Sets maps s ns kind.config_map_name key none (delete_entry E ns kind key s)
  unfolding delete_entry entry
  delete_entry-Sets kind key s reached = elim (Reply-cases (got kind s).0) [
    | inl (cm, e) ↦ rw (e, delete_entry) (delete_from-Sets kind key s cm e)
    | inr (x, e) ↦
        let absent = get_not_found ns kind.config_map_name s e (reached x e) in
        rw (e, delete_entry) (absent-Sets kind key s (rw absent refl))
  ]

  -- Where the ConfigMaps follow the laws of the API: whatever error the reading of the ConfigMap ends with, the removal says that it succeeded, and
  -- every entry is still there.
  pub delete_entry_unread :
      (kind : Kind) (key : Str) (s : E.State) {e : LibError}
      → (got kind s).0 ≡ failure e
      → ((delete_entry E ns kind key s).0 ≡ ok tt)
        × (maps (delete_entry E ns kind key s).1 ≡ maps s)
  unfolding delete_entry
  delete_entry_unread kind key s e =
      (rw (e, delete_entry) refl, rw (e, delete_entry) (get_keeps ns kind.config_map_name s))

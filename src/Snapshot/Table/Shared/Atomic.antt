-- ===== src/Snapshot/Table/Shared/Atomic.antt =====
-- Storing and removing an entry are atomic, though each is a reading and a writing.
use etcd_snapshot_driver.Common.{
  Str, str_eq_iff, true, Option, none, some, [], ◌≡◌, refl, sym, ◌∙◌, inl, inr, LibError, Reply,
  Reply-cases, value, failure, Error, Option-cases, arith,
}
use etcd_snapshot_driver.Common.Dict.{Dict, lookup, insert, erase}
use etcd_snapshot_driver.Env.{Env}
use etcd_snapshot_driver.Kube.{ConfigMap}
use etcd_snapshot_driver.Snapshot.Manager.{
  Kind, contents, answer, new_config_map, store_entry, delete_from, delete_entry,
}
use etcd_snapshot_driver.Snapshot.Table.{
  Contents, put_map, entry, IsPut, put_map-insert, put_map-erase, insert-nil,
}
use etcd_snapshot_driver.Snapshot.Table.Shared.{SharedLaws, SetsAtomically}

-- Nothing is put where nothing was.
absent-IsPut :
    (m : Contents) (ns name key : Str) → entry m ns name key ≡ none → IsPut m m ns name key none
absent-IsPut m ns name key absent ns' name' key' =
    ground (arith, str_eq_iff ns ns', str_eq_iff name name', str_eq_iff key key')

module _ (E : Env) (L : SharedLaws E) (ns : Str) where
  open L use {
    maps, version, Others, others_trans, others_version, get_value, get_failure, get_not_found,
    create_value, create_failure, update_value, update_failure,
  }

  abbrev got : Kind → E.State → Reply ConfigMap × E.State
  got kind s = E.get_config_map ns kind.config_map_name s

  -- A write that fails does nothing, and one that succeeds is atomic, where others write between `s` and
  -- the write.
  answer-Atomic :
      (s₀ s : E.State) (name key : Str) (v : Option Str) (f : LibError → Error)
      (p : Reply ConfigMap × E.State)
      → Others s₀ s
      → ((r : ConfigMap)
          → p.0 ≡ value r
          → (t : E.State) × (t' : E.State) × Others s t
            × Others t' p.1
            × IsPut (maps t) (maps t') ns name key v)
      → ((e : LibError) → p.0 ≡ failure e → Others s p.1)
      → SetsAtomically L s₀ ns name key v (answer f p)
  answer-Atomic s₀ s name key v f (value r, s') before put same =
      let (t, t', start, rest, written) = put r refl in
      (t, t', others_trans s₀ s t before start, written, rest)
  answer-Atomic s₀ s name key v f (failure e, s') before put same =
      others_trans s₀ s s' before (same e refl)

  -- An update after a reading: what was read is still there when the update takes effect.
  updated-Atomic :
      (kind : Kind) (key : Str) (v : Option Str) (s : E.State) (cm : ConfigMap) (d : Dict)
      (f : LibError → Error)
      → (got kind s).0 ≡ value cm
      → ((m : Contents)
          → m ns kind.config_map_name ≡ some (contents cm.entries)
          → IsPut m (put_map m ns kind.config_map_name d) ns kind.config_map_name key v)
      → SetsAtomically L s ns kind.config_map_name key v
          (answer f (E.update_config_map ns (record cm { entries = some d }) (got kind s).1))
  updated-Atomic kind key v s cm d f e put =
      let (g, before, after, named, versioned, read_version, held) =
        get_value ns kind.config_map_name s e in
      let new : ConfigMap = record cm { entries = some d } in
      answer-Atomic s (got kind s).1 kind.config_map_name key v f
        (E.update_config_map ns new (got kind s).1) (others_trans s g (got kind s).1 before after)
        (λ r won.
          let (t, t', start, rest, same_version, set) =
            update_value ns new (got kind s).1 versioned won in
          let still : maps g ns kind.config_map_name ≡ maps t ns kind.config_map_name =
            others_version g t ns kind.config_map_name (others_trans g (got kind s).1 t after start)
              (read_version ∙ rw named at (sym same_version)) in
          (t, t', start, rest, rw (set, named) (put (maps t) (sym still ∙ held))))
        (λ x lost. update_failure ns new (got kind s).1 lost)

  created-Atomic :
      (kind : Kind) (key text : Str) (s : E.State) (f : LibError → Error)
      → Others s (got kind s).1
      → SetsAtomically L s ns kind.config_map_name key
          (some text)
          (answer f (E.create_config_map ns (new_config_map kind ns key text) (got kind s).1))
  created-Atomic kind key text s f before =
      let new = new_config_map kind ns key text in
      answer-Atomic s (got kind s).1 kind.config_map_name key (some text) f
        (E.create_config_map ns new (got kind s).1) before
        (λ r won.
          let (t, t', start, rest, free, set) = create_value ns new (got kind s).1 won in
          (
            t,
            t',
            start,
            rest,
            rw (set, ← insert-nil key text)
                (put_map-insert (maps t) ns kind.config_map_name key text [] (inr (free, refl))),
          ))
        (λ x lost. create_failure ns new (got kind s).1 lost)

  -- Where other writers change the ConfigMaps between the calls of the API, and the server refuses an
  -- update of a ConfigMap whose resource version has changed: storing an entry that succeeds sets it in
  -- one step, at a moment between its start and its end, so that no write of another is lost; one that
  -- fails does nothing. It does not panic.
  pub store_entry-Atomic :
      (kind : Kind) (key text : Str) (s : E.State)
      → SetsAtomically L s ns kind.config_map_name key
          (some text)
          (store_entry E ns kind key text s)
  unfolding store_entry
  store_entry-Atomic kind key text s = elim (Reply-cases (got kind s).0) [
    | inl (cm, e) ↦
        rw (e, store_entry)
          (updated-Atomic kind key (some text) s cm (insert key text (contents cm.entries)) _ e
            (λ m held.
              put_map-insert m ns kind.config_map_name key text (contents cm.entries) (inl held)))
    | inr (x, e) ↦
        rw (e, store_entry)
          (created-Atomic kind key text s _ (get_failure ns kind.config_map_name s e))
  ]

  delete_from-Atomic :
      (kind : Kind) (key : Str) (s : E.State) (cm : ConfigMap)
      → (got kind s).0 ≡ value cm
      → SetsAtomically L s ns kind.config_map_name key none
          (delete_from E ns kind key cm (got kind s).1)
  unfolding entry
  delete_from-Atomic kind key s cm e = elim (Option-cases (lookup key (contents cm.entries))) [
    | inl missing ↦
        let (g, before, after, _, _, _, held) = get_value ns kind.config_map_name s e in
        rw (missing, delete_from)
          (g, g, before, absent-IsPut (maps g) ns kind.config_map_name key (rw held missing), after)
    | inr (text, present) ↦
        rw (present, delete_from)
          (updated-Atomic kind key none s cm (erase key (contents cm.entries)) _ e
            (λ m held. put_map-erase m ns kind.config_map_name key (contents cm.entries) held))
  ]

  -- Where other writers change the ConfigMaps between the calls of the API, the server refuses an update
  -- of a ConfigMap whose resource version has changed, and the only error of reading the ConfigMap is
  -- that it does not exist: removing an entry that succeeds removes it in one step, at a moment between
  -- its start and its end, so that no write of another is lost; one that fails does nothing. It does not
  -- panic.
  pub delete_entry-Atomic :
      (kind : Kind) (key : Str) (s : E.State)
      → ((e : LibError) → (got kind s).0 ≡ failure e → e.is_not_found ≡ true)
      → SetsAtomically L s ns kind.config_map_name key none (delete_entry E ns kind key s)
  unfolding delete_entry entry
  delete_entry-Atomic kind key s reached = elim (Reply-cases (got kind s).0) [
    | inl (cm, e) ↦ rw (e, delete_entry) (delete_from-Atomic kind key s cm e)
    | inr (x, e) ↦
        let (g, before, after, absent) = get_not_found ns kind.config_map_name s e (reached x e) in
        rw (e, delete_entry)
          (g, g, before, absent-IsPut (maps g) ns kind.config_map_name key (rw absent refl), after)
  ]

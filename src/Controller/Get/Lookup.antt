-- ===== src/Controller/Get/Lookup.antt =====
-- What a lookup leaves as it was, and when it panics.
use etcd_snapshot_driver.Common.{
  true-false, ℕ, Str, lit, is_empty, true, [], ◌∷◌, status, Error, invalid_argument, Result, ok,
  err, panic, is_panic, reject_if, ◌>>=◌, ◌≡◌, ◌≢◌, ◌↔◌, refl, sym, ap, ◌∙◌, >>=-ok, arith,
}
use etcd_snapshot_driver.Env.{Env}
use etcd_snapshot_driver.Env.Frame.{Keeps, >>=-Keeps, map_err-Keeps, reject_if-Keeps, ReadsKeep}
use etcd_snapshot_driver.Snapshot.{GroupSnapshotMetadata, Codec, Codecs}
use etcd_snapshot_driver.Snapshot.Manager.{
  Kind, single_kind, group_kind, retrieve, retrieve_snapshot_metadata,
  retrieve_group_snapshot_metadata,
}
use etcd_snapshot_driver.Snapshot.Manager.Ends.{retrieve_ends}
use etcd_snapshot_driver.Controller.Types.{metadata_namespace}
use etcd_snapshot_driver.Controller.Get.{found_group, answer_from, get_volume_group_snapshot}

some_id : (c : ℕ) (id : Str) → c ∷ id ≢ []
some_id c id e = cc

same_group :
    (g h : GroupSnapshotMetadata) → ◌≡◌ {A = Result GroupSnapshotMetadata} (ok g) (ok h) → g ≡ h
same_group g h e = cc

err_ok :
    (x : Error) (g : GroupSnapshotMetadata)
    → ◌≡◌ {A = Result GroupSnapshotMetadata} (err x) (ok g)
    → ⊥
err_ok x g e = cc

module _ (E : Env) (cs : Codecs) where
  module _ (P : E.State → Type 0) (K : ReadsKeep E P) where
    retrieve-Keeps :
        {A : Type 0} (c : Codec A) (kind : Kind) (key : Str)
        → Keeps P (retrieve E metadata_namespace c kind key)
    unfolding retrieve
    retrieve-Keeps c kind key s p =
        let seen = K.get_config_map metadata_namespace kind.config_map_name s p in ground arith

    answer_from-Keeps : (id : Str) (g : GroupSnapshotMetadata) → Keeps P (answer_from E cs id g)
    unfolding retrieve_snapshot_metadata
    answer_from-Keeps id g s p =
        let seen = retrieve-Keeps cs.single single_kind g.snapshot_id s p in ground arith

    -- A lookup keeps what the reading calls keep.
    pub get-Keeps : (id : Str) → Keeps P (get_volume_group_snapshot E cs id)
    unfolding get_volume_group_snapshot retrieve_group_snapshot_metadata
    get-Keeps id =
        >>=-Keeps P
          (reject_if (is_empty id) (status invalid_argument (lit "group_snapshot_id required")))
          (λ _. found_group E cs id >>= answer_from E cs id) (reject_if-Keeps P (is_empty id) _)
          (λ _.
            >>=-Keeps P (found_group E cs id) (answer_from E cs id)
              (map_err-Keeps P _ (retrieve_group_snapshot_metadata E metadata_namespace cs id)
                (retrieve-Keeps cs.group group_kind id))
              (answer_from-Keeps id))

  answer_panics :
      (id : Str) (g : GroupSnapshotMetadata) (s : E.State)
      → (is_panic (answer_from E cs id g s).0 ≡ true) ↔ (g.source_volume_ids ≡ [])
  unfolding retrieve_snapshot_metadata
  answer_panics id g s =
      let ends = retrieve_ends E metadata_namespace cs.single single_kind g.snapshot_id s in
      ((λ h. ground arith), (λ h. ground arith))

  -- A lookup panics exactly if it is given an ID, the metadata of the group are read, and they list no
  -- volume.
  pub get_panic_iff :
      (id : Str) (s : E.State)
      → (is_panic (get_volume_group_snapshot E cs id s).0 ≡ true) ↔ (
          (g : GroupSnapshotMetadata) × (id ≢ [])
          × ((retrieve_group_snapshot_metadata E metadata_namespace cs id s).0 ≡ ok g)
          × (g.source_volume_ids ≡ []))
  unfolding get_volume_group_snapshot retrieve_group_snapshot_metadata
  get_panic_iff [] s = ((λ h. cc), (λ p. absurd (p.1 refl)))
  get_panic_iff (c ∷ id) s =
      go (retrieve_group_snapshot_metadata E metadata_namespace cs (c ∷ id) s).0 refl
    where
      go :
          (r : Result GroupSnapshotMetadata)
          → (retrieve_group_snapshot_metadata E metadata_namespace cs (c ∷ id) s).0 ≡ r
          → (is_panic (get_volume_group_snapshot E cs (c ∷ id) s).0 ≡ true) ↔ (
              (g : GroupSnapshotMetadata) × (c ∷ id ≢ []) × (r ≡ ok g) × (g.source_volume_ids ≡ []))
      go (ok g) e =
          let found : (found_group E cs (c ∷ id) s).0 ≡ ok g = ground arith in
          let same = >>=-ok (found_group E cs (c ∷ id)) (answer_from E cs (c ∷ id)) s found in
          let panics = answer_panics (c ∷ id) g (found_group E cs (c ∷ id) s).1 in
          (
            λ h. (g, some_id c id, refl, panics.0 (ap (λ r. is_panic r.0) (sym same) ∙ h)),
            λ (g', _, eq, none_listed).
                ap (λ r. is_panic r.0) same ∙ panics.1 (rw (← same_group g g' eq) at none_listed),
          )
      go (err x) e = (λ h. absurd (ground arith), λ (g, _, same, _). absurd (err_ok x g same))
      go (panic x) e =
          absurd (
            true-false
              (rw e at (retrieve_ends E metadata_namespace cs.group group_kind (c ∷ id) s)))

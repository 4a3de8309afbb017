-- ===== src/Controller/Delete/Removal.antt =====
-- What a deletion leaves.
use etcd_snapshot_driver.Common.{
  Str, lit, str_eq, str_eq_refl, false, Option, none, [], ◌∷◌, Result, ok, err, panic, Act, >>=-ok,
  logged, ◌≡◌, ◌≢◌, refl, ap, ◌∙◌, if◌then◌else◌, arith,
}
use etcd_snapshot_driver.Env.{Env}
use etcd_snapshot_driver.Env.Frame.{Keeps, ReadsKeep}
use etcd_snapshot_driver.Kube.{Job}
use etcd_snapshot_driver.Snapshot.{Codecs, GroupSnapshotMetadata}
use etcd_snapshot_driver.Snapshot.Manager.{
  single_kind, group_kind, delete_entry, retrieve_group_snapshot_metadata,
  delete_group_snapshot_metadata,
}
use etcd_snapshot_driver.Snapshot.Table.{Contents, ConfigMapLaws, entry, Sets, Sets-IsPut}
use etcd_snapshot_driver.Snapshot.Table.Writes.{delete_entry-Sets}
use etcd_snapshot_driver.Snapshot.Table.Reliable.{IsReliable, delete_entry_ok}
use etcd_snapshot_driver.Snapshot.Table.RoundTrip.{retrieve-keeps}
use etcd_snapshot_driver.Controller.Types.{metadata_namespace}
use etcd_snapshot_driver.Controller.Delete.Total.{DeleteQuantitiesParse, logged_ok, cleanup_ends}
use etcd_snapshot_driver.Controller.Delete.Frame.{cleanup-Keeps}
use etcd_snapshot_driver.Controller.Delete.{
  cleanup_snapshot, remove_group, delete_known, delete_volume_group_snapshot,
}

-- What the table of groups says of a key.
abbrev pub group_entry : Contents → Str → Option Str
group_entry m = entry m metadata_namespace group_kind.config_map_name

-- Calls that are not about ConfigMaps leave them alone.
pub record IsSeparate (E : Env) (L : ConfigMapLaws E) : Type 1 where
  pub reads : (P : Contents → Type 0) → ReadsKeep E (λ s. P (L.maps s))
  pub jobs :
      (ns : Str) (j : Job E.Quantity) (s : E.State) → L.maps (E.create_job ns j s).1 ≡ L.maps s

pub kinds_differ : str_eq single_kind.config_map_name group_kind.config_map_name ≡ false
unfolding single_kind group_kind str_eq lit
kinds_differ = refl

-- A write to one ConfigMap leaves the others alone, however it ends.
pub Sets-other :
    {S : Type 0} (maps : S → Contents) (s : S) (ns name key : Str) (v : Option Str)
    (p : Result Unit × S) (name' : Str)
    → Sets maps s ns name key v p
    → str_eq name name' ≡ false
    → (key' : Str) → entry (maps p.1) ns name' key' ≡ entry (maps s) ns name' key'
Sets-other maps s ns name key v (ok _, s') name' h other key' =
    h ns name' key' ∙ rw (str_eq_refl ns, other) refl
Sets-other maps s ns name key v (err _, s') name' h other key' = rw h refl
Sets-other maps s ns name key v (panic _, s') name' h other key' = absurd h

module _ (E : Env) (L : ConfigMapLaws E) (R : IsReliable E L) (Q : IsSeparate E L)
    (cs : Codecs) where
  module _ (m : Contents) where
    -- The table of groups is that of `m`.
    abbrev SameGroups : Contents → Type 0
    SameGroups m' = (key : Str) → group_entry m' key ≡ group_entry m key

    abbrev P : E.State → Type 0
    P s = SameGroups (L.maps s)

    creates : (ns : Str) (j : Job E.Quantity) (s : E.State) → P s → P (E.create_job ns j s).1
    creates ns j s p = rw (Q.jobs ns j s) p

    deletes-Keeps : (id : Str) → Keeps P (delete_entry E metadata_namespace single_kind id)
    deletes-Keeps id s p key =
        Sets-other L.maps s metadata_namespace single_kind.config_map_name id none
          (delete_entry E metadata_namespace single_kind id s) group_kind.config_map_name
          (delete_entry-Sets E L metadata_namespace single_kind id s
            (λ e h. R.reads metadata_namespace single_kind.config_map_name s e h))
          kinds_differ key
        ∙ p key

    groups_kept : (id : Str) → Keeps P (cleanup_snapshot E cs id)
    groups_kept = cleanup-Keeps E P (Q.reads SameGroups) creates cs deletes-Keeps

  logged_state : {S A : Type 0} (a : Act S A) (s : S) → (logged a s).1 ≡ (a s).1
  logged_state a s = ground arith

  module _ (parses : DeleteQuantitiesParse E) where
    remove_group_state :
        (id : Str) (g : GroupSnapshotMetadata) (s : E.State)
        → (remove_group E cs id g s).1
          ≡ (delete_entry E metadata_namespace group_kind id
              (cleanup_snapshot E cs g.snapshot_id s).1).1
    unfolding remove_group delete_group_snapshot_metadata
    remove_group_state id g s =
        ap (λ p. p.1)
          (>>=-ok (logged (cleanup_snapshot E cs g.snapshot_id))
            (λ _. logged (delete_group_snapshot_metadata E metadata_namespace id)) s
            (logged_ok (cleanup_snapshot E cs g.snapshot_id)
              (cleanup_ends E parses cs g.snapshot_id) s))
        ∙ logged_state (delete_group_snapshot_metadata E metadata_namespace id) _
        ∙ ap (λ t. (delete_group_snapshot_metadata E metadata_namespace id t).1)
            (logged_state (cleanup_snapshot E cs g.snapshot_id) s)

    removed :
        (id : Str) (g : GroupSnapshotMetadata) (s s₀ : E.State)
        → L.maps s ≡ L.maps s₀
        → (key : Str)
        → group_entry (L.maps (remove_group E cs id g s).1) key
          ≡ (if str_eq id key then none else group_entry (L.maps s₀) key)
    removed id g s s₀ same key =
        let s₁ = (cleanup_snapshot E cs g.snapshot_id s).1 in
        let name = group_kind.config_map_name in
        let kept : SameGroups (L.maps s₀) (L.maps s₁) =
          groups_kept (L.maps s₀) g.snapshot_id s (λ k. rw same refl) in
        let put =
          Sets-IsPut L.maps s₁ metadata_namespace name id none
            (delete_entry E metadata_namespace group_kind id s₁)
            (delete_entry-Sets E L metadata_namespace group_kind id s₁
              (λ e h. R.reads metadata_namespace name s₁ e h))
            (delete_entry_ok E L R metadata_namespace group_kind id s₁) in
        rw (remove_group_state id g s) (
          put metadata_namespace name key
          ∙ rw (str_eq_refl metadata_namespace, str_eq_refl name, kept key) refl)

    -- A deletion of a group whose metadata are read takes its entry out of the table of groups and leaves
    -- every other entry of it alone, whatever becomes of the cleanup job. The ConfigMaps follow the laws of
    -- the API, on a server that answers every call that can be answered; only calls on ConfigMaps change
    -- them; and the quantities of the template parse.
    pub delete_removes :
        (id : Str) (s : E.State) {g : GroupSnapshotMetadata}
        → id ≢ []
        → (retrieve_group_snapshot_metadata E metadata_namespace cs id s).0 ≡ ok g
        → (key : Str)
        → group_entry (L.maps (delete_volume_group_snapshot E cs id s).1) key
          ≡ (if str_eq id key then none else group_entry (L.maps s) key)
    unfolding delete_volume_group_snapshot delete_known retrieve_group_snapshot_metadata
    delete_removes [] s {g} some_id read_ok key = absurd (some_id refl)
    delete_removes (c ∷ id) s {g} some_id read_ok key =
        rw (read_ok, delete_known)
          (removed (c ∷ id) g
            (retrieve_group_snapshot_metadata E metadata_namespace cs (c ∷ id) s).1 s
            (retrieve-keeps E L metadata_namespace cs.group group_kind (c ∷ id) s) key)

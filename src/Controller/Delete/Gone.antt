-- ===== src/Controller/Delete/Gone.antt =====
-- A group that was deleted is not found.
use etcd_snapshot_driver.Common.{
  Str, lit, str_eq_refl, none, [], ◌∷◌, ◌++◌, Error, status, not_found, ok, err, ◌≡◌, ◌≢◌, refl,
  ◌∙◌, arith,
}
use etcd_snapshot_driver.Env.{Env}
use etcd_snapshot_driver.Snapshot.{Codecs, GroupSnapshotMetadata}
use etcd_snapshot_driver.Snapshot.Manager.{group_kind, retrieve_group_snapshot_metadata}
use etcd_snapshot_driver.Snapshot.Table.{ConfigMapLaws}
use etcd_snapshot_driver.Snapshot.Table.RoundTrip.{retrieve_absent, retrieve-keeps}
use etcd_snapshot_driver.Snapshot.Table.Reliable.{IsReliable}
use etcd_snapshot_driver.Controller.Types.{metadata_namespace}
use etcd_snapshot_driver.Controller.Get.{get_volume_group_snapshot}
use etcd_snapshot_driver.Controller.Delete.{delete_known, delete_volume_group_snapshot}
use etcd_snapshot_driver.Controller.Delete.Total.{DeleteQuantitiesParse, delete_ok}
use etcd_snapshot_driver.Controller.Delete.Removal.{group_entry, IsSeparate, delete_removes}

abbrev pub missing_group : Str → Error
missing_group id = status not_found (lit "group snapshot not found: " ++ id)

module _ (E : Env) (L : ConfigMapLaws E) (cs : Codecs) where
  pub get_absent :
      (id : Str) (s : E.State)
      → id ≢ []
      → group_entry (L.maps s) id ≡ none
      → (get_volume_group_snapshot E cs id s).0 ≡ err (missing_group id)
  unfolding get_volume_group_snapshot retrieve_group_snapshot_metadata
  get_absent [] s some_id absent = absurd (some_id refl)
  get_absent (c ∷ id) s some_id absent =
      ground (arith, retrieve_absent E L metadata_namespace cs.group group_kind (c ∷ id) s absent)

  -- Deleting a group without an entry changes nothing.
  pub delete_absent :
      (id : Str) (s : E.State)
      → id ≢ []
      → group_entry (L.maps s) id ≡ none
      → L.maps (delete_volume_group_snapshot E cs id s).1 ≡ L.maps s
  unfolding delete_volume_group_snapshot retrieve_group_snapshot_metadata
  delete_absent [] s some_id absent = absurd (some_id refl)
  delete_absent (c ∷ id) s some_id absent =
      let r = retrieve_group_snapshot_metadata E metadata_namespace cs (c ∷ id) s in
      let same : (delete_volume_group_snapshot E cs (c ∷ id) s).1 ≡ r.1 =
        unfold delete_known in
        ground
          (arith, retrieve_absent E L metadata_namespace cs.group group_kind (c ∷ id) s absent) in
      rw same (retrieve-keeps E L metadata_namespace cs.group group_kind (c ∷ id) s)

  module _ (R : IsReliable E L) (Q : IsSeparate E L) (parses : DeleteQuantitiesParse E) where
    -- Deleting a group twice: where its metadata were read the first time, the second deletion succeeds
    -- too, and leaves every ConfigMap as the first one left it. The ConfigMaps follow the laws of the
    -- API, on a server that answers every call that can be answered; only calls on ConfigMaps change them;
    -- and the quantities of the template parse.
    pub delete_twice :
        (id : Str) (s : E.State) {g : GroupSnapshotMetadata}
        → id ≢ []
        → (retrieve_group_snapshot_metadata E metadata_namespace cs id s).0 ≡ ok g
        → (let s' = (delete_volume_group_snapshot E cs id s).1 in
            ((delete_volume_group_snapshot E cs id s').0 ≡ ok tt)
            × (L.maps (delete_volume_group_snapshot E cs id s').1 ≡ L.maps s'))
    delete_twice id s some_id found =
        let s' = (delete_volume_group_snapshot E cs id s).1 in
        (
          delete_ok E parses cs id s' some_id,
          delete_absent id s' some_id
              (delete_removes E L R Q cs parses id s some_id found id ∙ rw (str_eq_refl id) refl),
        )

-- ===== src/Controller/Service/Serving.antt =====
-- What every sequence of requests keeps.
use etcd_snapshot_driver.Common.{
  Str, Bool, true, false, Option, none, some, Reply, value, is_panic, ◌≡◌, refl, sym, ◌∙◌,
}
use etcd_snapshot_driver.Env.{Env}
use etcd_snapshot_driver.Env.Frame.{ReadsKeep}
use etcd_snapshot_driver.Kube.{Pvc}
use etcd_snapshot_driver.Snapshot.{GroupSnapshotMetadata, Codecs, IsFaithful}
use etcd_snapshot_driver.Snapshot.Manager.{
  single_kind, group_kind, retrieve, retrieve_group_snapshot_metadata,
}
use etcd_snapshot_driver.Snapshot.Table.{Contents, ConfigMapLaws}
use etcd_snapshot_driver.Controller.Types.{ControllerConfig, metadata_namespace}
use etcd_snapshot_driver.Controller.Create.Frame.{create-Keeps}
use etcd_snapshot_driver.Controller.Get.Lookup.{get-Keeps, get_panic_iff}
use etcd_snapshot_driver.Snapshot.Table.RoundTrip.{retrieve_sound}
use etcd_snapshot_driver.Controller.Get.{get_volume_group_snapshot}
use etcd_snapshot_driver.Controller.Delete.Frame.{delete-Keeps}
use etcd_snapshot_driver.Controller.Delete.Removal.{group_entry, IsSeparate}
use etcd_snapshot_driver.Controller.Service.{
  Step, created, deleted, looked_up, elsewhere, Reach, here, next, IsWellKept,
}
use etcd_snapshot_driver.Controller.Service.Writes.{
  Kept, delete_entry-Kept, store_single-Kept, store_group-Kept,
}

pub same_value :
    (g h : GroupSnapshotMetadata)
    → ◌≡◌ {A = Reply GroupSnapshotMetadata} (value g) (value h)
    → g ≡ h
same_value g h e = cc

none-some : {t : Str} → ◌≡◌ {A = Option Str} none (some t) → ⊥
none-some h = cc

-- An empty table is well kept.
pub empty-IsWellKept :
    (cs : Codecs) (m : Contents) → ((key : Str) → group_entry m key ≡ none) → IsWellKept cs m
empty-IsWellKept cs m empty key text h = absurd (none-some (rw empty at h))

module _ (E : Env) (L : ConfigMapLaws E) (Q : IsSeparate E L)
    (pvcs : (ns : Str) (p : Pvc E.Quantity) (s : E.State)
      → L.maps (E.create_pvc ns p s).1 ≡ L.maps s)
    (cs : Codecs) (faithful : IsFaithful cs.group) where
  abbrev Well : E.State → Type 0
  Well = Kept E L cs

  reads : ReadsKeep E Well
  reads = Q.reads (IsWellKept cs)

  -- An entry that can be read and names a volume is answered.
  get_ends :
      (id : Str) (s : E.State) → Well s → is_panic (get_volume_group_snapshot E cs id s).0 ≡ false
  unfolding retrieve retrieve_group_snapshot_metadata
  get_ends id s well = go (is_panic (get_volume_group_snapshot E cs id s).0) refl
    where
      go : (b : Bool) → is_panic (get_volume_group_snapshot E cs id s).0 ≡ b → b ≡ false
      go false e = refl
      go true e =
          let (g, _, read_ok, none_listed) = (get_panic_iff E cs id s).0 e in
          let (text, present, decoded) =
            retrieve_sound E L metadata_namespace cs.group group_kind id s read_ok in
          let (g', decoded', _, listed) = well id text present in
          absurd (listed (rw (same_value g g' (sym decoded ∙ decoded')) at none_listed))

  module _ (cfg : ControllerConfig) where
    step : {s t : E.State} → Step E L cfg cs s t → Well s → Well t
    step (created req s) well =
        create-Keeps E Well reads (λ ns p s h. rw (pvcs ns p s) h)
          (λ ns j s h. rw (Q.jobs ns j s) h) cfg cs (store_single-Kept E L cs)
          (store_group-Kept E L cs faithful) req s well
    step (deleted id s) well =
        delete-Keeps E Well reads (λ ns j s h. rw (Q.jobs ns j s) h) cs
          (delete_entry-Kept E L cs single_kind) (delete_entry-Kept E L cs group_kind) id s well
    step (looked_up id s) well = get-Keeps E cs Well reads id s well
    step (elsewhere same) well = rw same well

    -- Whatever requests are served one after the other, and however they end, and whatever else happens
    -- in the cluster that leaves the ConfigMaps alone: if every entry in the table
    -- of groups can be read, says whose it is and names a volume at first, then so it is at every later
    -- moment. The ConfigMaps follow the laws of the API, only calls on ConfigMaps change them, and the
    -- metadata of groups are read back as they were written.
    pub reach-IsWellKept :
        {s t : E.State} → Reach E L cfg cs s t → IsWellKept cs (L.maps s) → IsWellKept cs (L.maps t)
    reach-IsWellKept here well = well
    reach-IsWellKept (next r x) well = step x (reach-IsWellKept r well)

    -- After any sequence of requests served one after the other, however they ended, from a state in
    -- which the table of groups is empty, and whatever else happens in the cluster that leaves the
    -- ConfigMaps alone: a lookup does not panic, whatever it is asked for. The ConfigMaps follow the laws of the
    -- API, only calls on ConfigMaps change them, and the metadata of groups are read back as they were
    -- written.
    pub reach_lookup_ends :
        {s t : E.State}
        → Reach E L cfg cs s t
        → ((key : Str) → group_entry (L.maps s) key ≡ none)
        → (id : Str) → is_panic (get_volume_group_snapshot E cs id t).0 ≡ false
    reach_lookup_ends {s} {t} r empty id =
        get_ends id t (reach-IsWellKept r (empty-IsWellKept cs (L.maps s) empty))

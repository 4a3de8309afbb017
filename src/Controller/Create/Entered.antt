-- ===== src/Controller/Create/Entered.antt =====
-- What a creation makes of the table of groups, whichever way it ends.
use etcd_snapshot_driver.Common.{
  Str, str_eq, str_eq_refl, true, some, List, [], ◌∷◌, map, is_value, value, if◌then◌else◌, Result,
  ok, err, panic, Act, ◌>>=◌, ◌≡◌, refl, ap, ◌∙◌,
}
use etcd_snapshot_driver.Env.{Env}
use etcd_snapshot_driver.Env.Frame.{Keeps, ReadsKeep}
use etcd_snapshot_driver.Kube.{Pvc}
use etcd_snapshot_driver.Snapshot.{SnapshotMetadata, GroupSnapshotMetadata, Codecs, IsFaithful}
use etcd_snapshot_driver.Snapshot.Manager.{
  single_kind, group_kind, store_snapshot_metadata, store_group_snapshot_metadata,
}
use etcd_snapshot_driver.Snapshot.Table.{Contents, ConfigMapLaws}
use etcd_snapshot_driver.Snapshot.Table.Reliable.{IsReliable, store-IsPut}
use etcd_snapshot_driver.Controller.Types.{
  ControllerConfig, CreateRequest, GroupSnapshot, metadata_namespace, stamped,
}
use etcd_snapshot_driver.Controller.Checks.{check_request}
use etcd_snapshot_driver.Controller.Checks.ReadOnly.{check_request-Keeps}
use etcd_snapshot_driver.Controller.Create.{
  Taken, single_metadata, record_snapshot, take_snapshot, after_checks, discovery,
  create_volume_group_snapshot,
}
use etcd_snapshot_driver.Controller.Create.Frame.{take_snapshot-Keeps}
use etcd_snapshot_driver.Controller.Create.Recorded.{
  named, single_stored, recorded_group, group_stored, recorded,
}
use etcd_snapshot_driver.Controller.Delete.Removal.{group_entry, IsSeparate, kinds_differ}

-- The tables say the same.
abbrev pub SameGroups : Contents → Contents → Type 0
SameGroups m m' = (key : Str) → group_entry m' key ≡ group_entry m key

-- The text is that of the metadata of a group with one snapshot of its first volume, as in the answer.
abbrev pub Describes : Codecs → Str → Str → List (Str × Str) → Type 0
Describes cs text id snapshots =
    (g : GroupSnapshotMetadata) × (source : Str) × (rest : List Str) × (cs.group.unmarshal text
      ≡ value g)
    × (g.group_snapshot_id ≡ id)
    × (g.source_volume_ids ≡ source ∷ rest)
    × (g.ready_to_use ≡ true)
    × (snapshots ≡ (g.snapshot_id, source) ∷ [])

-- The entry of the answer is set, and the others are as they were.
abbrev pub Enters : Codecs → Contents → GroupSnapshot → Contents → Type 0
Enters cs m g m' =
    (text : Str) × ((key : Str)
      → group_entry m' key
        ≡ (if str_eq g.group_snapshot_id key then some text else group_entry m key))
    × Describes cs text g.group_snapshot_id (map named g.snapshots)

-- An answer enters the group; an error or a panic leaves the table as it was.
abbrev pub Ended :
    {S : Type 0} → (S → Contents) → Codecs → Contents → Result GroupSnapshot × S → Type 0
Ended maps cs m (ok g, s') = Enters cs m g (maps s')
Ended maps cs m (err _, s') = SameGroups m (maps s')
Ended maps cs m (panic _, s') = SameGroups m (maps s')

>>=-Ended :
    {S A : Type 0} (maps : S → Contents) (cs : Codecs) (m : Contents) (a : Act S A)
    (f : A → Act S GroupSnapshot)
    → Keeps (λ s. SameGroups m (maps s)) a
    → ((x : A) (s : S) → SameGroups m (maps s) → Ended maps cs m (f x s))
    → (s : S) → SameGroups m (maps s)
    → Ended maps cs m ((a >>= f) s)
>>=-Ended {A} maps cs m a f keeps ends s same = go (a s).0 refl
  where
    go : (r : Result A) → (a s).0 ≡ r → Ended maps cs m ((a >>= f) s)
    go (ok x) e = rw (e, ◌>>=◌) (ends x (a s).1 (keeps s same))
    go (err x) e = rw (e, ◌>>=◌) (keeps s same)
    go (panic x) e = rw (e, ◌>>=◌) (keeps s same)

module _ (E : Env) (L : ConfigMapLaws E) (R : IsReliable E L) (Q : IsSeparate E L)
    (pvcs : (ns : Str) (p : Pvc E.Quantity) (s : E.State)
      → L.maps (E.create_pvc ns p s).1 ≡ L.maps s)
    (cs : Codecs) (faithful : IsFaithful cs.group)
    (writable : (m : GroupSnapshotMetadata) → is_value (cs.group.marshal m) ≡ true)
    (writable' : (m : SnapshotMetadata) → is_value (cs.single.marshal m) ≡ true)
    (cfg : ControllerConfig) where
  clock : (s : E.State) → L.maps (E.now s).1 ≡ L.maps s
  clock s = (Q.reads (λ m. m ≡ L.maps s)).now s refl

  now_twice :
      (s : E.State) (key : Str)
      → group_entry (L.maps (E.now (E.now s).1).1) key ≡ group_entry (L.maps s) key
  now_twice s key = rw (clock (E.now s).1, clock s) refl

  -- Storing the metadata of a snapshot is about the other table.
  single-SameGroups :
      (d : SnapshotMetadata) (s : E.State)
      → SameGroups (L.maps s) (L.maps (store_snapshot_metadata E metadata_namespace cs d s).1)
  unfolding store_snapshot_metadata
  single-SameGroups d s key =
      let (text, _, put) =
        store-IsPut E L R metadata_namespace cs.single single_kind d.snapshot_id d s
          (writable' d) in
      put metadata_namespace group_kind.config_map_name key
      ∙ rw (str_eq_refl metadata_namespace, kinds_differ) refl

  group-put :
      (g : GroupSnapshotMetadata) (s : E.State)
      → (text : Str) × (cs.group.unmarshal text ≡ value g)
        × ((key : Str)
            → group_entry (L.maps (store_group_snapshot_metadata E metadata_namespace cs g s).1) key
              ≡ (if str_eq g.group_snapshot_id key then some text else group_entry (L.maps s) key))
  unfolding store_group_snapshot_metadata
  group-put g s =
      let (text, e, put) =
        store-IsPut E L R metadata_namespace cs.group group_kind g.group_snapshot_id g s
          (writable g) in
      (
        text,
        faithful.unmarshal-marshal g e,
        λ key.
            put metadata_namespace group_kind.config_map_name key
            ∙ rw (str_eq_refl metadata_namespace, str_eq_refl group_kind.config_map_name) refl,
      )

  module _ (m : Contents) where
    abbrev Same : E.State → Type 0
    Same s = SameGroups m (L.maps s)

    reads : ReadsKeep E Same
    reads = Q.reads (SameGroups m)

    record_snapshot-Ended :
        (id : Str) (ids : List Str) (cluster : Str) (taken : Taken) (s : E.State)
        → Same s
        → Ended L.maps cs m (record_snapshot E cfg cs id ids cluster taken s)
    record_snapshot-Ended id [] cluster taken s same = unfold record_snapshot in same
    record_snapshot-Ended id (source ∷ rest) cluster taken s same =
        let s₂ =
          single_stored E L R cs faithful writable writable' clock cfg id source rest cluster taken
            s in
        let g =
          recorded_group E L R cs faithful writable writable' clock cfg id source rest cluster taken
            s in
        let (text, decoded, put) = group-put g (E.now s₂).1 in
        let s₄ =
          group_stored E L R cs faithful writable writable' clock cfg id source rest cluster taken
            s in
        let before : SameGroups m (L.maps (E.now s₂).1) = reads.now s₂ (λ key.
          single-SameGroups (single_metadata source cluster taken (E.now s).0) (E.now s).1 key
          ∙ reads.now s same key) in
        rw (recorded E L R cs faithful writable writable' clock cfg id source rest cluster taken s)
          (
            text,
            λ key.
                now_twice s₄ key
                ∙ put key
                ∙ ap (λ o. if str_eq id key then some text else o) (before key),
            (g, source, rest, decoded, refl, refl, refl, refl),
          )

    -- Whichever way a creation ends, the table changes as its answer says.
    pub create-Ended :
        (req : CreateRequest) (s : E.State)
        → Same s
        → Ended L.maps cs m (create_volume_group_snapshot E cfg cs req s)
    unfolding create_volume_group_snapshot
    create-Ended req s same =
        let id = stamped req.name (E.now s).0 in
        >>=-Ended L.maps cs m (check_request E (discovery E cfg) req.name req.source_volume_ids)
          (after_checks E cfg cs req id)
          (check_request-Keeps E Same reads (discovery E cfg) req.name req.source_volume_ids)
          (λ f.
            >>=-Ended L.maps cs m (take_snapshot E cfg id f)
              (record_snapshot E cfg cs id req.source_volume_ids f.first_cluster_name)
              (take_snapshot-Keeps E Same reads (λ ns p s h. rw (pvcs ns p s) h)
                (λ ns j s h. rw (Q.jobs ns j s) h) cfg id f)
              (record_snapshot-Ended id req.source_volume_ids f.first_cluster_name))
          (E.now s).1 (reads.now s same)

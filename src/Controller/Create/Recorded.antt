-- ===== src/Controller/Create/Recorded.antt =====
-- A snapshot that was created is found again.
use etcd_snapshot_driver.Common.{
  true-false, is_value, ℕ, Str, lit, is_empty, true, false, Option, some, List, [], ◌∷◌, map, value,
  Result, ok, err, panic, >>=-ok, >>=-eq-ok, ◌≡◌, ◌≢◌, refl, arith,
}
use etcd_snapshot_driver.Env.{Env}
use etcd_snapshot_driver.Snapshot.{SnapshotMetadata, GroupSnapshotMetadata, Codecs, IsFaithful}
use etcd_snapshot_driver.Snapshot.Manager.{
  single_kind, group_kind, store_snapshot_metadata, store_group_snapshot_metadata,
  retrieve_snapshot_metadata, retrieve_group_snapshot_metadata,
}
use etcd_snapshot_driver.Snapshot.Manager.Ends.{retrieve_ends}
use etcd_snapshot_driver.Snapshot.Table.{ConfigMapLaws, entry, entry-IsPut}
use etcd_snapshot_driver.Snapshot.Table.RoundTrip.{retrieve-entry}
use etcd_snapshot_driver.Snapshot.Table.Reliable.{IsReliable, store-IsPut, store_ok, get_ok}
use etcd_snapshot_driver.Controller.Types.{
  ControllerConfig, CreateRequest, Snapshot, GroupSnapshot, metadata_namespace, stamped,
}
use etcd_snapshot_driver.Controller.Create.{
  Taken, single_metadata, group_metadata, group_answer, record_snapshot, take_snapshot,
  after_checks, discovery, create_volume_group_snapshot,
}
use etcd_snapshot_driver.Controller.Checks.{Found, check_request}
use etcd_snapshot_driver.Controller.Get.{time_from, response, get_volume_group_snapshot}

-- The two responses name the same group and the same snapshots of the same volumes, and both say
-- that all is ready.
abbrev pub named : Snapshot → Str × Str
named x = (x.snapshot_id, x.source_volume_id)

abbrev pub Agree : GroupSnapshot → GroupSnapshot → Type 0
Agree g h =
    (g.group_snapshot_id ≡ h.group_snapshot_id)
    × (map named g.snapshots ≡ map named h.snapshots)
    × (g.ready_to_use ≡ true)
    × (h.ready_to_use ≡ true)

stamped-ne_nil : (name : Str) (t : ℕ) → stamped name t ≢ []
unfolding stamped lit
stamped-ne_nil [] t e = cc
stamped-ne_nil (_ ∷ _) t e = cc

is_empty-ne_nil : (s : Str) → s ≢ [] → is_empty s ≡ false
is_empty-ne_nil [] h = absurd (h refl)
is_empty-ne_nil (_ ∷ _) h = refl

module _ (E : Env) (cs : Codecs) where
  -- What a lookup answers after the metadata have been recorded.
  abbrev pub IsFoundAgain : GroupSnapshot → E.State → Type 0
  IsFoundAgain g s =
      (h : GroupSnapshot) × ((get_volume_group_snapshot E cs g.group_snapshot_id s).0 ≡ ok h)
      × Agree g h

module _ (E : Env) (L : ConfigMapLaws E) (R : IsReliable E L) (cs : Codecs)
    (faithful : IsFaithful cs.group)
    (writable : (m : GroupSnapshotMetadata) → is_value (cs.group.marshal m) ≡ true)
    (writable' : (m : SnapshotMetadata) → is_value (cs.single.marshal m) ≡ true)
    (clock : (s : E.State) → L.maps (E.now s).1 ≡ L.maps s) where
  abbrev pub group_entry : E.State → Str → Option Str
  group_entry s = entry (L.maps s) metadata_namespace group_kind.config_map_name

  -- The entry of the group decodes to `m`.
  abbrev pub Holds : E.State → GroupSnapshotMetadata → Type 0
  Holds s m =
      (text : Str) × (group_entry s m.group_snapshot_id ≡ some text)
      × (cs.group.unmarshal text ≡ value m)

  stored-Holds :
      (m : GroupSnapshotMetadata) (s : E.State)
      → Holds (store_group_snapshot_metadata E metadata_namespace cs m s).1 m
  unfolding store_group_snapshot_metadata
  stored-Holds m s =
      let (text, e, put) =
        store-IsPut E L R metadata_namespace cs.group group_kind m.group_snapshot_id m s
          (writable m) in
      (
        text,
        entry-IsPut _ _ metadata_namespace group_kind.config_map_name m.group_snapshot_id
            (some text) put,
        faithful.unmarshal-marshal m e,
      )

  after_now : (m : GroupSnapshotMetadata) (s : E.State) → Holds s m → Holds (E.now s).1 m
  after_now m s h = rw (clock s) h

  read_time :
      (t : ℕ) (id : Str) (s : E.State)
      → (u : ℕ) × ((time_from t (retrieve_snapshot_metadata E metadata_namespace cs id s)).0 ≡ ok u)
  unfolding retrieve_snapshot_metadata
  read_time t id s = go (retrieve_snapshot_metadata E metadata_namespace cs id s).0 refl
    where
      go :
          (r : Result SnapshotMetadata)
          → (retrieve_snapshot_metadata E metadata_namespace cs id s).0 ≡ r
          → (u : ℕ) × ((time_from t (retrieve_snapshot_metadata E metadata_namespace cs id s)).0
              ≡ ok u)
      go (ok m) e = (m.creation_time, rw (e, time_from) refl)
      go (err x) e = (t, rw (e, time_from) refl)
      go (panic x) e =
          absurd
            (true-false (rw e at (retrieve_ends E metadata_namespace cs.single single_kind id s)))

  pub get-Holds :
      (m : GroupSnapshotMetadata) (source : Str) (rest : List Str) (s : E.State)
      → m.group_snapshot_id ≢ []
      → m.source_volume_ids ≡ source ∷ rest
      → Holds s m
      → (t : ℕ) × ((get_volume_group_snapshot E cs m.group_snapshot_id s).0
          ≡ ok (response m.group_snapshot_id m source t))
  unfolding get_volume_group_snapshot retrieve_group_snapshot_metadata
  get-Holds m source rest s named_group listed (text, here, decoded) =
      let (cm, got) =
        get_ok E L R metadata_namespace group_kind.config_map_name m.group_snapshot_id s here in
      let found =
        retrieve-entry E L metadata_namespace cs.group group_kind m.group_snapshot_id s got here
          decoded in
      let (t, timed) =
        read_time m.creation_time m.snapshot_id
          (retrieve_group_snapshot_metadata E metadata_namespace cs m.group_snapshot_id s).1 in
      (t, ground (arith, is_empty-ne_nil m.group_snapshot_id named_group))

  single_ok :
      (m : SnapshotMetadata) (s : E.State)
      → (store_snapshot_metadata E metadata_namespace cs m s).0 ≡ ok tt
  unfolding store_snapshot_metadata
  single_ok m s =
      store_ok E L R metadata_namespace cs.single single_kind m.snapshot_id m s (writable' m)

  group_ok :
      (m : GroupSnapshotMetadata) (s : E.State)
      → (store_group_snapshot_metadata E metadata_namespace cs m s).0 ≡ ok tt
  unfolding store_group_snapshot_metadata
  group_ok m s =
      store_ok E L R metadata_namespace cs.group group_kind m.group_snapshot_id m s (writable m)

  module _ (cfg : ControllerConfig) (id source : Str) (rest : List Str) (cluster : Str)
      (taken : Taken) (s : E.State) where
    -- The states after the two stores, what is stored of the group, and how the recording ends.
    abbrev pub single_stored : E.State
    single_stored =
        (store_snapshot_metadata E metadata_namespace cs
          (single_metadata source cluster taken (E.now s).0) (E.now s).1).1

    abbrev pub recorded_group : GroupSnapshotMetadata
    recorded_group = group_metadata id (source ∷ rest) cluster taken (E.now single_stored).0

    abbrev pub group_stored : E.State
    group_stored =
        (store_group_snapshot_metadata E metadata_namespace cs recorded_group
          (E.now single_stored).1).1

    abbrev pub end_state : E.State
    end_state = (E.now (E.now group_stored).1).1

    abbrev pub recorded_answer : GroupSnapshot
    recorded_answer =
        group_answer id source taken (E.now group_stored).0 (E.now (E.now group_stored).1).0

    pub recorded :
        record_snapshot E cfg cs id (source ∷ rest) cluster taken s
        ≡ (ok recorded_answer, end_state)
    unfolding record_snapshot
    recorded =
        let single_done =
          single_ok (single_metadata source cluster taken (E.now s).0) (E.now s).1 in
        let group_done = group_ok recorded_group (E.now single_stored).1 in ground arith

    recorded_found : id ≢ [] → IsFoundAgain E cs recorded_answer end_state
    recorded_found named_group =
        let held : Holds end_state recorded_group =
          after_now recorded_group _
            (after_now recorded_group _ (stored-Holds recorded_group (E.now single_stored).1)) in
        let (t, found) = get-Holds recorded_group source rest end_state named_group refl held in
        (response id recorded_group source t, found, (refl, refl, refl, refl))

  module _ (cfg : ControllerConfig) where
    record_snapshot-found :
        (id : Str) (ids : List Str) (cluster : Str) (taken : Taken) (s : E.State)
        {g : GroupSnapshot}
        → id ≢ []
        → (record_snapshot E cfg cs id ids cluster taken s).0 ≡ ok g
        → IsFoundAgain E cs g (record_snapshot E cfg cs id ids cluster taken s).1
    record_snapshot-found id [] cluster taken s named_group h = unfold record_snapshot in cc
    record_snapshot-found id (source ∷ rest) cluster taken s {g} named_group h =
        let e = recorded cfg id source rest cluster taken s in
        let again = recorded_found cfg id source rest cluster taken s named_group in
        let same : recorded_answer cfg id source rest cluster taken s ≡ g = cc (rw e at h) in
        rw (e, ← same) again

    after_checks-found :
        (req : CreateRequest) (id : Str) (f : Found) (s : E.State) {g : GroupSnapshot}
        → id ≢ []
        → (after_checks E cfg cs req id f s).0 ≡ ok g
        → IsFoundAgain E cs g (after_checks E cfg cs req id f s).1
    after_checks-found req id f s {g} named_group h =
        let m = take_snapshot E cfg id f in
        let k = record_snapshot E cfg cs id req.source_volume_ids f.first_cluster_name in
        let (taken, e₁, e₂) = >>=-eq-ok m k s h in
        rw (>>=-ok m k s e₁) (
          record_snapshot-found id req.source_volume_ids f.first_cluster_name taken (m s).1
            named_group e₂)

    -- A creation that succeeds is found again: a lookup of the group ID of its response, in the state that
    -- it leaves, answers with the same snapshots of the same volumes, ready to use. The ConfigMaps
    -- follow the laws of the API, on a server that answers every call that can be answered; the metadata
    -- can be written as JSON and are read back; and the clock leaves the ConfigMaps alone.
    pub create_found :
        (req : CreateRequest) (s : E.State) {g : GroupSnapshot}
        → (create_volume_group_snapshot E cfg cs req s).0 ≡ ok g
        → IsFoundAgain E cs g (create_volume_group_snapshot E cfg cs req s).1
    unfolding create_volume_group_snapshot
    create_found req s {g} h =
        let id = stamped req.name (E.now s).0 in
        let m = check_request E (discovery E cfg) req.name req.source_volume_ids in
        let k = after_checks E cfg cs req id in
        let (f, e₁, e₂) = >>=-eq-ok m k (E.now s).1 h in
        let again =
          after_checks-found req id f (m (E.now s).1).1 (stamped-ne_nil req.name (E.now s).0) e₂ in
        rw (>>=-ok m k (E.now s).1 e₁) again

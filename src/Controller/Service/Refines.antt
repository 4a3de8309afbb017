-- ===== src/Controller/Service/Refines.antt =====
-- The service refines a table of groups: what a lookup answers is what the requests before it, and
-- their answers, say.
use etcd_snapshot_driver.Common.{
  Str, str_eq, str_eq_iff, true, Option, none, some, List, [], ◌∷◌, map, is_value, if◌then◌else◌,
  Bool-cases, Result, ok, err, panic, ◌≡◌, ◌≢◌, inl, inr, refl, sym, ◌∙◌, arith,
}
use etcd_snapshot_driver.Env.{Env}
use etcd_snapshot_driver.Kube.{Pvc}
use etcd_snapshot_driver.Snapshot.{SnapshotMetadata, GroupSnapshotMetadata, Codecs, IsFaithful}
use etcd_snapshot_driver.Snapshot.Manager.{group_kind, retrieve_group_snapshot_metadata}
use etcd_snapshot_driver.Snapshot.Table.{Contents, ConfigMapLaws}
use etcd_snapshot_driver.Snapshot.Table.Reliable.{IsReliable, get_ok}
use etcd_snapshot_driver.Snapshot.Table.RoundTrip.{retrieve-entry}
use etcd_snapshot_driver.Controller.Types.{ControllerConfig, GroupSnapshot, metadata_namespace}
use etcd_snapshot_driver.Controller.Create.{create_volume_group_snapshot}
use etcd_snapshot_driver.Controller.Create.Recorded.{named, get-Holds}
use etcd_snapshot_driver.Controller.Create.Entered.{Describes, Ended, create-Ended}
use etcd_snapshot_driver.Controller.Get.{response, get_volume_group_snapshot}
use etcd_snapshot_driver.Controller.Get.Lookup.{get-Keeps}
use etcd_snapshot_driver.Controller.Delete.{delete_volume_group_snapshot}
use etcd_snapshot_driver.Controller.Delete.Total.{DeleteQuantitiesParse, delete_ok}
use etcd_snapshot_driver.Controller.Delete.Gone.{missing_group, get_absent, delete_absent}
use etcd_snapshot_driver.Controller.Delete.Removal.{group_entry, IsSeparate, delete_removes}
use etcd_snapshot_driver.Controller.Service.{
  Step, created, deleted, looked_up, elsewhere, Reach, here, next,
}

-- The groups there are, each with the IDs of its snapshots and of their volumes.
abbrev pub Groups : Type 0
Groups = Str → Option (List (Str × Str))

-- What an answer to a creation and to a deletion says.
abbrev pub entered : Result GroupSnapshot → Groups → Groups
entered (ok g) t key =
    if str_eq g.group_snapshot_id key then some (map named g.snapshots) else t key
entered (err _) t key = t key
entered (panic _) t key = t key

abbrev pub removed : Str → Result Unit → Groups → Groups
removed id (ok _) t key = if str_eq id key then none else t key
removed id (err _) t key = t key
removed id (panic _) t key = t key

-- What a lookup answers where the groups are these.
abbrev pub LookupAnswers : Str → Option (List (Str × Str)) → Result GroupSnapshot → Type 0
LookupAnswers id none r = r ≡ err (missing_group id)
LookupAnswers id (some snapshots) r =
    (h : GroupSnapshot) × (r ≡ ok h)
    × (h.group_snapshot_id ≡ id)
    × (map named h.snapshots ≡ snapshots)
    × (h.ready_to_use ≡ true)

-- An entry of the table in the ConfigMap, and what it stands for.
abbrev Fits : Codecs → Str → Option Str → Option (List (Str × Str)) → Type 0
Fits cs key none none = Unit
Fits cs key (some text) (some snapshots) = Describes cs text key snapshots
Fits cs key none (some _) = ⊥
Fits cs key (some _) none = ⊥

abbrev Represents : Codecs → Contents → Groups → Type 0
Represents cs m t = (key : Str) → Fits cs key (group_entry m key) (t key)

Ended-Represents :
    {S : Type 0} (maps : S → Contents) (cs : Codecs) (m : Contents) (t : Groups)
    (p : Result GroupSnapshot × S)
    → Ended maps cs m p
    → Represents cs m t
    → Represents cs (maps p.1) (entered p.0 t)
Ended-Represents maps cs m t (ok g, s') (text, put, described) fits key =
    elim (Bool-cases (str_eq g.group_snapshot_id key)) [
      | inl own ↦ rw (put key, own) (rw (← (str_eq_iff g.group_snapshot_id key).0 own) described)
      | inr other ↦ rw (put key, other) (fits key)
    ]
Ended-Represents maps cs m t (err _, s') same fits key = rw (same key) (fits key)
Ended-Represents maps cs m t (panic _, s') same fits key = rw (same key) (fits key)

module _ (E : Env) (L : ConfigMapLaws E) (cfg : ControllerConfig) (cs : Codecs) where
  -- What a step and a sequence of them make of the groups: nothing but the answers is looked at.
  abbrev pub noted : {s t : E.State} → Step E L cfg cs s t → Groups → Groups
  noted (created req s) t = entered (create_volume_group_snapshot E cfg cs req s).0 t
  noted (deleted id s) t = removed id (delete_volume_group_snapshot E cs id s).0 t
  noted (looked_up id s) t = t
  noted (elsewhere same) t = t

  abbrev pub replay : {s t : E.State} → Reach E L cfg cs s t → Groups → Groups
  replay here g = g
  replay (next r x) g = noted x (replay r g)

module _ (E : Env) (L : ConfigMapLaws E) (R : IsReliable E L) (Q : IsSeparate E L)
    (pvcs : (ns : Str) (p : Pvc E.Quantity) (s : E.State)
      → L.maps (E.create_pvc ns p s).1 ≡ L.maps s)
    (parses : DeleteQuantitiesParse E) (cs : Codecs) (faithful : IsFaithful cs.group)
    (writable : (m : GroupSnapshotMetadata) → is_value (cs.group.marshal m) ≡ true)
    (writable' : (m : SnapshotMetadata) → is_value (cs.single.marshal m) ≡ true)
    (cfg : ControllerConfig) where
  clock : (s : E.State) → L.maps (E.now s).1 ≡ L.maps s
  clock s = (Q.reads (λ m. m ≡ L.maps s)).now s refl

  -- A group that is in the table is read.
  retrieved :
      (id : Str) (s : E.State) {text : Str} {snapshots : List (Str × Str)}
      → group_entry (L.maps s) id ≡ some text
      → Describes cs text id snapshots
      → (g : GroupSnapshotMetadata) × ((retrieve_group_snapshot_metadata E metadata_namespace cs id
            s).0
          ≡ ok g)
  unfolding retrieve_group_snapshot_metadata
  retrieved id s present (g, source, rest, decoded, _, _, _, _) =
      let (cm, got) = get_ok E L R metadata_namespace group_kind.config_map_name id s present in
      (g, retrieve-entry E L metadata_namespace cs.group group_kind id s got present decoded)

  -- Whether the group is in the table or not, it is not afterwards.
  delete_effect :
      (id : Str) (s : E.State) (t : Groups)
      → id ≢ []
      → Represents cs (L.maps s) t
      → (key : Str)
      → group_entry (L.maps (delete_volume_group_snapshot E cs id s).1) key
        ≡ (if str_eq id key then none else group_entry (L.maps s) key)
  delete_effect id s t some_id fits key = go (group_entry (L.maps s) id) (t id) refl (fits id)
    where
      go :
          (o : Option Str) (x : Option (List (Str × Str)))
          → group_entry (L.maps s) id ≡ o
          → Fits cs id o x
          → group_entry (L.maps (delete_volume_group_snapshot E cs id s).1) key
            ≡ (if str_eq id key then none else group_entry (L.maps s) key)
      go none none absent _ =
          rw (delete_absent E L cs id s some_id absent) (ground (arith, str_eq_iff id key))
      go none (some _) _ misfit = absurd misfit
      go (some text) (some snapshots) present described =
          let (g, found) = retrieved id s present described in
          delete_removes E L R Q cs parses id s some_id found key
      go (some _) none _ misfit = absurd misfit

  delete-Represents :
      (id : Str) (s : E.State) (t : Groups)
      → Represents cs (L.maps s) t
      → Represents cs
          (L.maps (delete_volume_group_snapshot E cs id s).1)
          (removed id (delete_volume_group_snapshot E cs id s).0 t)
  delete-Represents [] s t fits key = unfold delete_volume_group_snapshot in fits key
  delete-Represents (c ∷ id) s t fits key =
      rw (delete_effect (c ∷ id) s t (λ e. cc) fits key, delete_ok E parses cs (c ∷ id) s (λ e. cc))
        (elim (Bool-cases (str_eq (c ∷ id) key)) [
          | inl own ↦ rw own tt
          | inr other ↦ rw other (fits key)
        ])

  step-Represents :
      {s u : E.State} (x : Step E L cfg cs s u) (t : Groups)
      → Represents cs (L.maps s) t
      → Represents cs (L.maps u) (noted E L cfg cs x t)
  step-Represents (created req s) t fits =
      Ended-Represents L.maps cs (L.maps s) t (create_volume_group_snapshot E cfg cs req s)
        (create-Ended E L R Q pvcs cs faithful writable writable' cfg (L.maps s) req s
          (λ key. refl))
        fits
  step-Represents (deleted id s) t fits = delete-Represents id s t fits
  step-Represents (looked_up id s) t fits =
      get-Keeps E cs (λ u. Represents cs (L.maps u) t) (Q.reads (λ m. Represents cs m t)) id s fits
  step-Represents (elsewhere same) t fits = rw same fits

  reach-Represents :
      {s u : E.State} (r : Reach E L cfg cs s u) (t : Groups)
      → Represents cs (L.maps s) t
      → Represents cs (L.maps u) (replay E L cfg cs r t)
  reach-Represents here t fits = fits
  reach-Represents (next r x) t fits = step-Represents x _ (reach-Represents r t fits)

  -- A lookup answers what the table stands for.
  get-Answers :
      (id : Str) (s : E.State) (t : Groups)
      → id ≢ []
      → Represents cs (L.maps s) t
      → LookupAnswers id (t id) (get_volume_group_snapshot E cs id s).0
  get-Answers id s t some_id fits = go (group_entry (L.maps s) id) (t id) refl (fits id)
    where
      go :
          (o : Option Str) (x : Option (List (Str × Str)))
          → group_entry (L.maps s) id ≡ o
          → Fits cs id o x
          → LookupAnswers id x (get_volume_group_snapshot E cs id s).0
      go none none absent _ = get_absent E L cs id s some_id absent
      go none (some _) _ misfit = absurd misfit
      go (some text) (some snapshots) present (g, source, rest, decoded, own, listed, ready, same) =
          let (time, found) =
            get-Holds E L R cs faithful writable writable' clock g source rest s
              (λ e. some_id (sym own ∙ e)) listed (text, rw own present, decoded) in
          (response id g source time, rw own at found, refl, sym same, ready)
      go (some _) none _ misfit = absurd misfit

  -- After any sequence of requests served one after the other, from a state in which the table of
  -- groups is empty, and whatever else happens in the cluster that leaves the ConfigMaps alone: a
  -- lookup of an ID answers what the answers before it say. If the last creation that answered with this
  -- ID came after the last deletion of it that succeeded, the answer has the same snapshots of the same
  -- volumes, ready to use; else it is that the group is not found. The ConfigMaps follow the laws of
  -- the API, on a server that answers every call that can be answered; only calls on ConfigMaps change
  -- them; the quantities of the template of deletions parse; and metadata can be written as JSON, those of
  -- groups are read back as written.
  pub service_refines :
      {s u : E.State} (r : Reach E L cfg cs s u)
      → ((key : Str) → group_entry (L.maps s) key ≡ none)
      → (id : Str) → id ≢ []
      → LookupAnswers id
          (replay E L cfg cs r (λ _. none) id)
          (get_volume_group_snapshot E cs id u).0
  service_refines {u = u} r empty id some_id =
      get-Answers id u (replay E L cfg cs r (λ _. none)) some_id
        (reach-Represents r (λ _. none) (λ key. rw (empty key) tt))

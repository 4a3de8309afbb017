-- ===== src/Controller/Service/Shared.antt =====
-- The service where other drivers and other writers work on the ConfigMaps at the same time.
use etcd_snapshot_driver.Common.{
  Str, Bool, true, false, Option, Option-cases, none, some, [], Reply-cases, value, Result, ok, err,
  panic, is_panic, ◌≡◌, ◌≢◌, inl, inr, refl, sym, ◌∙◌, arith,
}
use etcd_snapshot_driver.Common.Dict.{lookup}
use etcd_snapshot_driver.Env.{Env}
use etcd_snapshot_driver.Env.Frame.{Keeps, ReadsKeep}
use etcd_snapshot_driver.Kube.{Pvc, Job}
use etcd_snapshot_driver.Snapshot.{SnapshotMetadata, GroupSnapshotMetadata, Codecs, IsFaithful}
use etcd_snapshot_driver.Snapshot.Manager.{
  Kind, single_kind, group_kind, contents, store_entry, delete_entry, store, retrieve,
  retrieve_group_snapshot_metadata, store_snapshot_metadata, store_group_snapshot_metadata,
}
use etcd_snapshot_driver.Snapshot.Table.{Contents, entry, IsPut}
use etcd_snapshot_driver.Snapshot.Table.Shared.{SharedLaws, SetsAtomically}
use etcd_snapshot_driver.Snapshot.Table.Shared.Atomic.{store_entry-Atomic, delete_entry-Atomic}
use etcd_snapshot_driver.Controller.Types.{ControllerConfig, CreateRequest, metadata_namespace}
use etcd_snapshot_driver.Controller.Create.{create_volume_group_snapshot}
use etcd_snapshot_driver.Controller.Create.Frame.{create-Keeps}
use etcd_snapshot_driver.Controller.Get.{get_volume_group_snapshot}
use etcd_snapshot_driver.Controller.Get.Lookup.{get-Keeps, get_panic_iff}
use etcd_snapshot_driver.Controller.Delete.{delete_volume_group_snapshot}
use etcd_snapshot_driver.Controller.Delete.Frame.{delete-Keeps}
use etcd_snapshot_driver.Controller.Delete.Removal.{group_entry}
use etcd_snapshot_driver.Controller.Service.{IsWellKept}
use etcd_snapshot_driver.Controller.Service.Serving.{same_value}
use etcd_snapshot_driver.Controller.Service.Writes.{removed, apart, entered}

-- While any other call runs, only others write.
pub record IsShared (E : Env) (L : SharedLaws E) : Type 1 where
  pub reads : (P : E.State → Type 0) → ((s t : E.State) → L.Others s t → P s → P t) → ReadsKeep E P
  pub jobs : (ns : Str) (j : Job E.Quantity) (s : E.State) → L.Others s (E.create_job ns j s).1
  pub pvcs : (ns : Str) (p : Pvc E.Quantity) (s : E.State) → L.Others s (E.create_pvc ns p s).1

module _ (E : Env) (L : SharedLaws E) (cs : Codecs) where
  abbrev Kept : E.State → Type 0
  Kept s = IsWellKept cs (L.maps s)

  -- What the other writers do keeps the table of groups as it should be.
  abbrev pub OthersKeep : Type 0
  OthersKeep = (s t : E.State) → L.Others s t → Kept s → Kept t

  module _ (others : OthersKeep) where
    SetsAtomically-Kept :
        (s : E.State) (name key : Str) (v : Option Str) (p : Result Unit × E.State)
        → ((m m' : Contents)
            → IsPut m m' metadata_namespace name key v
            → IsWellKept cs m
            → IsWellKept cs m')
        → SetsAtomically L s metadata_namespace name key v p
        → Kept s
        → Kept p.1
    SetsAtomically-Kept s name key v (ok _, s') put (t, t', before, written, after) kept =
        others t' s' after (put (L.maps t) (L.maps t') written (others s t before kept))
    SetsAtomically-Kept s name key v (err _, s') put before kept = others s s' before kept
    SetsAtomically-Kept s name key v (panic _, s') put before kept = absurd before

    delete_entry-Kept :
        (kind : Kind) (key : Str) → Keeps Kept (delete_entry E metadata_namespace kind key)
    unfolding delete_entry
    delete_entry-Kept kind key s kept =
        elim (Reply-cases (E.get_config_map metadata_namespace kind.config_map_name s).0) [
          | inl (cm, e) ↦
              SetsAtomically-Kept s kind.config_map_name key none
                (delete_entry E metadata_namespace kind key s)
                (λ m m'. removed cs m m' kind.config_map_name key)
                (delete_entry-Atomic E L metadata_namespace kind key s (λ x f. cc)) kept
          | inr (x, e) ↦
              rw (e, delete_entry)
                (others _ _ (L.get_failure metadata_namespace kind.config_map_name s e) kept)
        ]

    store_single-Kept :
        (d : SnapshotMetadata) → Keeps Kept (store_snapshot_metadata E metadata_namespace cs d)
    unfolding store_snapshot_metadata store
    store_single-Kept d s kept = elim (Reply-cases (cs.single.marshal d)) [
      | inl (text, e) ↦
          rw (e, store)
            (SetsAtomically-Kept s single_kind.config_map_name d.snapshot_id (some text)
              (store_entry E metadata_namespace single_kind d.snapshot_id text s)
              (λ m m'. apart cs m m' d.snapshot_id (some text))
              (store_entry-Atomic E L metadata_namespace single_kind d.snapshot_id text s) kept)
      | inr (x, e) ↦ rw (e, store) kept
    ]

    store_group-Kept :
        IsFaithful cs.group
        → (g : GroupSnapshotMetadata) → g.source_volume_ids ≢ []
        → Keeps Kept (store_group_snapshot_metadata E metadata_namespace cs g)
    unfolding store_group_snapshot_metadata store
    store_group-Kept faithful g named s kept = elim (Reply-cases (cs.group.marshal g)) [
      | inl (text, e) ↦
          rw (e, store)
            (SetsAtomically-Kept s group_kind.config_map_name g.group_snapshot_id (some text)
              (store_entry E metadata_namespace group_kind g.group_snapshot_id text s)
              (λ m m' put. entered cs m m' g text put (faithful.unmarshal-marshal g e) named)
              (store_entry-Atomic E L metadata_namespace group_kind g.group_snapshot_id text s)
              kept)
      | inr (x, e) ↦ rw (e, store) kept
    ]

    -- What is read is what the entry decodes to, at some moment between the start and the end.
    read_sound :
        (key : Str) (s : E.State) {g : GroupSnapshotMetadata}
        → (retrieve_group_snapshot_metadata E metadata_namespace cs key s).0 ≡ ok g
        → (t : E.State) × (text : Str) × L.Others s t
          × (group_entry (L.maps t) key ≡ some text)
          × (cs.group.unmarshal text ≡ value g)
    unfolding retrieve_group_snapshot_metadata retrieve entry
    read_sound key s {g} h =
        elim (Reply-cases (E.get_config_map metadata_namespace group_kind.config_map_name s).0) [
          | inl (cm, e) ↦
              let (t, before, _, _, _, _, held) =
                L.get_value metadata_namespace group_kind.config_map_name s e in
              elim (Option-cases (lookup key (contents cm.entries))) [
                | inl missing ↦ absurd (ground arith)
                | inr (text, present) ↦ (t, text, before, rw held present, ground arith)
              ]
          | inr (x, e) ↦ absurd (ground arith)
        ]

    get_ends :
        (id : Str) (s : E.State) → Kept s → is_panic (get_volume_group_snapshot E cs id s).0 ≡ false
    get_ends id s kept = go (is_panic (get_volume_group_snapshot E cs id s).0) refl
      where
        go : (b : Bool) → is_panic (get_volume_group_snapshot E cs id s).0 ≡ b → b ≡ false
        go false e = refl
        go true e =
            let (g, _, read_ok, none_listed) = (get_panic_iff E cs id s).0 e in
            let (t, text, before, present, decoded) = read_sound id s read_ok in
            let (g', decoded', _, listed) = others s t before kept id text present in
            absurd (listed (rw (same_value g g' (sym decoded ∙ decoded')) at none_listed))

module _ (E : Env) (L : SharedLaws E) (cfg : ControllerConfig) (cs : Codecs) where
  -- A request is served while others write, or others write.
  pub data SharedStep : E.State → E.State → Type 0 where
    created :
        (req : CreateRequest) (s : E.State)
        → SharedStep s (create_volume_group_snapshot E cfg cs req s).1
    deleted : (id : Str) (s : E.State) → SharedStep s (delete_volume_group_snapshot E cs id s).1
    looked_up : (id : Str) (s : E.State) → SharedStep s (get_volume_group_snapshot E cs id s).1
    written : {s t : E.State} → L.Others s t → SharedStep s t

  pub data SharedReach (s : E.State) : E.State → Type 0 where
    here : SharedReach s s
    next : {t u : E.State} → SharedReach s t → SharedStep t u → SharedReach s u

module _ (E : Env) (L : SharedLaws E) (Q : IsShared E L) (cs : Codecs)
    (faithful : IsFaithful cs.group) (others : OthersKeep E L cs) (cfg : ControllerConfig) where
  step-Kept : {s t : E.State} → SharedStep E L cfg cs s t → Kept E L cs s → Kept E L cs t
  step-Kept (created req s) kept =
      create-Keeps E (Kept E L cs) (Q.reads (Kept E L cs) others)
        (λ ns p s h. others s _ (Q.pvcs ns p s) h) (λ ns j s h. others s _ (Q.jobs ns j s) h) cfg cs
        (store_single-Kept E L cs others) (store_group-Kept E L cs others faithful) req s kept
  step-Kept (deleted id s) kept =
      delete-Keeps E (Kept E L cs) (Q.reads (Kept E L cs) others)
        (λ ns j s h. others s _ (Q.jobs ns j s) h) cs (delete_entry-Kept E L cs others single_kind)
        (delete_entry-Kept E L cs others group_kind) id s kept
  step-Kept (looked_up id s) kept =
      get-Keeps E cs (Kept E L cs) (Q.reads (Kept E L cs) others) id s kept
  step-Kept (written {s} {t} wrote) kept = others s t wrote kept

  reach-Kept : {s t : E.State} → SharedReach E L cfg cs s t → Kept E L cs s → Kept E L cs t
  reach-Kept here kept = kept
  reach-Kept (next r x) kept = step-Kept x (reach-Kept r kept)

  -- Where other drivers and other writers change the ConfigMaps at any moment, also while a request
  -- is served, the server refuses an update of a ConfigMap whose resource version has changed, and what the
  -- others do keeps every entry of the table of groups readable, saying whose it is and naming a volume:
  -- from a state in which it is so, after any sequence of requests, however they ended, it still is so,
  -- and a lookup does not panic, whatever it is asked for. The metadata of groups are read back as they
  -- were written.
  pub shared_reach-IsWellKept :
      {s t : E.State}
      → SharedReach E L cfg cs s t
      → IsWellKept cs (L.maps s)
      → IsWellKept cs (L.maps t)
        × ((id : Str) → is_panic (get_volume_group_snapshot E cs id t).0 ≡ false)
  shared_reach-IsWellKept {t = t} r kept =
      (reach-Kept r kept, λ id. get_ends E L cs others id t (reach-Kept r kept))

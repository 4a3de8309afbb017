-- ===== src/Snapshot/Table.antt =====
-- The manager implements two finite maps, from snapshot and from group IDs to JSON texts, as long
-- as nobody else writes the two ConfigMaps while a call runs.
pub mod Writes
pub mod RoundTrip
pub mod Reliable
pub mod Shared
use etcd_snapshot_driver.Common.{
  Str, lit, str_eq, str_eq_iff, str_eq_refl, Bool, true, false, ◌&&◌, Option, none, some, List, [],
  ◌∷◌, ◌++◌, ◌≡◌, refl, sym, ap, ◌∙◌, ◌≢◌, ◌⊎◌, inl, inr, if◌then◌else◌, LibError, Reply,
  Reply-cases, value, failure, Error, Result, ok, err, panic, Option-cases, arith,
}
use etcd_snapshot_driver.Common.Dict
use etcd_snapshot_driver.Common.Dict.{Dict, lookup, insert, erase, lookup-insert, lookup-erase}
use etcd_snapshot_driver.Env.{Env}
use etcd_snapshot_driver.Kube.{ConfigMap}
use etcd_snapshot_driver.Snapshot.{Codec, Codecs, IsFaithful}
use etcd_snapshot_driver.Snapshot.Manager.{
  Kind, contents, answer, new_config_map, store_entry, delete_from, delete_entry, store, retrieve,
}

-- What the API server keeps: the entries of each ConfigMap, if there is one.
abbrev pub Contents : Type 0
Contents = Str → Str → Option Dict

-- One ConfigMap is written.
abbrev pub put_map : Contents → Str → Str → Dict → Contents
put_map m ns name d ns' name' = if str_eq ns ns' && str_eq name name' then some d else m ns' name'

-- The documented behaviour of the API, for a server that answers a call before another writer
-- comes: a failed call changes nothing, `Get` reads, `Create` needs the name to be free, and
-- `Update` replaces.
pub record ConfigMapLaws (E : Env) : Type 0 where
  pub maps : E.State → Contents
  pub get_keeps : (ns name : Str) (s : E.State) → maps (E.get_config_map ns name s).1 ≡ maps s
  pub get_value :
      (ns name : Str) (s : E.State) {cm : ConfigMap}
      → (E.get_config_map ns name s).0 ≡ value cm
      → (cm.meta.name ≡ name) × (maps s ns name ≡ some (contents cm.entries))
  pub get_not_found :
      (ns name : Str) (s : E.State) {e : LibError}
      → (E.get_config_map ns name s).0 ≡ failure e
      → e.is_not_found ≡ true
      → maps s ns name ≡ none
  pub create_value :
      (ns : Str) (cm : ConfigMap) (s : E.State) {r : ConfigMap}
      → (E.create_config_map ns cm s).0 ≡ value r
      → (maps s ns cm.meta.name ≡ none)
        × (maps (E.create_config_map ns cm s).1
            ≡ put_map (maps s) ns cm.meta.name (contents cm.entries))
  pub create_failure :
      (ns : Str) (cm : ConfigMap) (s : E.State) {e : LibError}
      → (E.create_config_map ns cm s).0 ≡ failure e
      → maps (E.create_config_map ns cm s).1 ≡ maps s
  pub update_value :
      (ns : Str) (cm : ConfigMap) (s : E.State) {r : ConfigMap}
      → (E.update_config_map ns cm s).0 ≡ value r
      → maps (E.update_config_map ns cm s).1
        ≡ put_map (maps s) ns cm.meta.name (contents cm.entries)
  pub update_failure :
      (ns : Str) (cm : ConfigMap) (s : E.State) {e : LibError}
      → (E.update_config_map ns cm s).0 ≡ failure e
      → maps (E.update_config_map ns cm s).1 ≡ maps s

-- The abstract view: what a ConfigMap says of a key. A ConfigMap that is missing says nothing.
abbrev pub entry_of : Option Dict → Str → Option Str
entry_of none key = none
entry_of (some d) key = lookup key d

unfoldable pub entry : Contents → Str → Str → Str → Option Str
entry m ns name key = entry_of (m ns name) key

-- The contents after a write of a key, and after its removal.
abbrev pub IsPut : Contents → Contents → Str → Str → Str → Option Str → Type 0
IsPut m m' ns name key v =
    (ns' name' key' : Str)
    → entry m' ns' name' key' ≡ (
        if str_eq ns ns' && (str_eq name name' && str_eq key key')
        then v
        else entry m ns' name' key')

lookup-nil : (key : Str) → lookup key [] ≡ none
unfolding lookup
lookup-nil key = refl

pub insert-nil : (key text : Str) → insert key text [] ≡ (key, text) ∷ []
unfolding insert
insert-nil key text = refl

-- Writing `d` with `key` set, where the ConfigMap held `d` before.
pub put_map-insert :
    (m : Contents) (ns name key text : Str) (d : Dict)
    → (m ns name ≡ some d) ⊎ ((m ns name ≡ none) × (d ≡ []))
    → IsPut m (put_map m ns name (insert key text d)) ns name key (some text)
unfolding entry
put_map-insert m ns name key text d (inl old) ns' name' key' =
    ground (arith, str_eq_iff ns ns', str_eq_iff name name', lookup-insert key key' text d)
put_map-insert m ns name key text d (inr (new, e)) ns' name' key' = ground (
  arith,
  str_eq_iff ns ns',
  str_eq_iff name name',
  lookup-insert key key' text d,
  lookup-nil key',
)

pub put_map-erase :
    (m : Contents) (ns name key : Str) (d : Dict)
    → m ns name ≡ some d
    → IsPut m (put_map m ns name (erase key d)) ns name key none
unfolding entry
put_map-erase m ns name key d before ns' name' key' =
    ground (arith, str_eq_iff ns ns', str_eq_iff name name', lookup-erase key key' d)

-- A call that failed has changed nothing; one that succeeded has set the key to `v`.
abbrev pub Sets :
    {S : Type 0} → (S → Contents) → S → Str → Str → Str → Option Str → Result Unit × S → Type 0
Sets maps s ns name key v (ok _, s') = IsPut (maps s) (maps s') ns name key v
Sets maps s ns name key v (err _, s') = maps s' ≡ maps s
Sets maps s ns name key v (panic _, s') = ⊥

pub answer-Sets :
    {S : Type 0} (maps : S → Contents) (s : S) (ns name key : Str) (v : Option Str)
    (f : LibError → Error) (p : Reply ConfigMap × S)
    → ((r : ConfigMap) → p.0 ≡ value r → IsPut (maps s) (maps p.1) ns name key v)
    → ((e : LibError) → p.0 ≡ failure e → maps p.1 ≡ maps s)
    → Sets maps s ns name key v (answer f p)
answer-Sets maps s ns name key v f (value r, s') put same = put r refl
answer-Sets maps s ns name key v f (failure e, s') put same = same e refl

pub Sets-IsPut :
    {S : Type 0} (maps : S → Contents) (s : S) (ns name key : Str) (v : Option Str)
    (p : Result Unit × S)
    → Sets maps s ns name key v p
    → p.0 ≡ ok tt
    → IsPut (maps s) (maps p.1) ns name key v
Sets-IsPut maps s ns name key v (ok _, s') h e = h
Sets-IsPut maps s ns name key v (err _, s') h e = cc
Sets-IsPut maps s ns name key v (panic _, s') h e = cc

-- A key that was set says what it was set to.
pub entry-IsPut :
    (m m' : Contents) (ns name key : Str) (v : Option Str)
    → IsPut m m' ns name key v
    → entry m' ns name key ≡ v
entry-IsPut m m' ns name key v h =
    h ns name key ∙ rw (str_eq_refl ns, str_eq_refl name, str_eq_refl key) refl

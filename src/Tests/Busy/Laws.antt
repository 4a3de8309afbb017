-- ===== src/Tests/Busy/Laws.antt =====
-- The laws of the API in the world of the other writer.
use etcd_snapshot_driver.Common.{
  ℕ, suc, ◌∙◌, Str, length, str_eq, true, ◌&&◌, Option, none, some, [], ◌<◌, LibError, Bool-cases,
  str_eq_iff, value, failure, ◌≡◌, ◌≢◌, ◌⊎◌, inl, inr, refl, ap, arith,
}
use etcd_snapshot_driver.Common.Dict.{Dict}
use etcd_snapshot_driver.Kube.{ConfigMap}
use etcd_snapshot_driver.Snapshot.Manager.{contents}
use etcd_snapshot_driver.Snapshot.Table.{put_map}
use etcd_snapshot_driver.Snapshot.Table.Shared.{SharedLaws}
use etcd_snapshot_driver.Tests.Busy.{
  Versioned, version_of, set_map, intruded, found, created, updated, busy,
}

abbrev pub Later : Versioned → Versioned → Type 0
Later s t =
    (ns name : Str) → (s ns name ≡ t ns name) ⊎ (length (s ns name).0 < length (t ns name).0)

Later-refl : (s : Versioned) → Later s s
Later-refl s ns name = inl refl

pub Later-trans : (s t u : Versioned) → Later s t → Later t u → Later s u
Later-trans s t u h k ns name = go (h ns name) (k ns name)
  where
    go :
        (s ns name ≡ t ns name) ⊎ (length (s ns name).0 < length (t ns name).0)
        → (t ns name ≡ u ns name) ⊎ (length (t ns name).0 < length (u ns name).0)
        → (s ns name ≡ u ns name) ⊎ (length (s ns name).0 < length (u ns name).0)
    go (inl e) (inl f) = inl (e ∙ f)
    go (inl e) (inr f) = inr (rw e f)
    go (inr e) (inl f) = inr (rw (← f) e)
    go (inr e) (inr f) = inr (omega arith)

apart : {m n : ℕ} → m < n → suc m ≡ suc n → ⊥
apart lt e = omega arith

pub Later-version :
    (s t : Versioned) (ns name : Str)
    → Later s t
    → version_of s ns name ≡ version_of t ns name
    → (s ns name).1 ≡ (t ns name).1
Later-version s t ns name h same = go (h ns name)
  where
    go :
        (s ns name ≡ t ns name) ⊎ (length (s ns name).0 < length (t ns name).0)
        → (s ns name).1 ≡ (t ns name).1
    go (inl e) = ap (λ p. p.1) e
    go (inr lt) = absurd (apart lt (ap length same))

Later-set : (s : Versioned) (ns name : Str) (d : Dict) → Later s (set_map s ns name d)
unfolding set_map
Later-set s ns name d ns' name' = elim (Bool-cases (str_eq ns ns' && str_eq name name')) [
  | inl e ↦ inr (rw (e, set_map) (omega arith))
  | inr e ↦ inl (rw (e, set_map) refl)
]

abbrev pub map_of : Versioned → Str → Str → Option Dict
map_of s ns name = (s ns name).1

pub found_value :
    (s : Versioned) (ns name : Str) (o : Option Dict) {cm : ConfigMap}
    → found s ns name o ≡ value cm
    → (cm.meta.name ≡ name)
      × (cm.meta.resource_version ≢ [])
      × (version_of s ns name ≡ cm.meta.resource_version)
      × (o ≡ some (contents cm.entries))
found_value s ns name none h = cc
found_value s ns name (some d) h = (ground arith, (λ e. ground arith), ground arith, ground arith)

pub found_failure :
    (s : Versioned) (ns name : Str) (o : Option Dict) {e : LibError}
    → found s ns name o ≡ failure e
    → o ≡ none
found_failure s ns name none h = refl
found_failure s ns name (some d) h = cc

pub created_value :
    (ns : Str) (cm : ConfigMap) (s : Versioned) (o : Option Dict) {r : ConfigMap}
    → (created ns cm s o).0 ≡ value r
    → (o ≡ none)
      × ((created ns cm s o).1 ≡ intruded (set_map s ns cm.meta.name (contents cm.entries)))
created_value ns cm s none h = (refl, refl)
created_value ns cm s (some d) h = cc

pub created_failure :
    (ns : Str) (cm : ConfigMap) (s : Versioned) (o : Option Dict) {e : LibError}
    → (created ns cm s o).0 ≡ failure e
    → (created ns cm s o).1 ≡ s
created_failure ns cm s none h = cc
created_failure ns cm s (some d) h = refl

pub updated_value :
    (ns : Str) (cm : ConfigMap) (s : Versioned) {r : ConfigMap}
    → (updated ns cm s).0 ≡ value r
    → (version_of s ns cm.meta.name ≡ cm.meta.resource_version)
      × ((updated ns cm s).1 ≡ intruded (set_map s ns cm.meta.name (contents cm.entries)))
updated_value ns cm s h =
    elim (Bool-cases (str_eq (version_of s ns cm.meta.name) cm.meta.resource_version)) [
      | inl e ↦ (
        ground (arith, str_eq_iff (version_of s ns cm.meta.name) cm.meta.resource_version),
        ground arith,
      )
      | inr e ↦ absurd (ground arith)
    ]

pub updated_failure :
    (ns : Str) (cm : ConfigMap) (s : Versioned) {e : LibError}
    → (updated ns cm s).0 ≡ failure e
    → (updated ns cm s).1 ≡ s
updated_failure ns cm s h = ground arith

set_put_at :
    (s : Versioned) (ns name : Str) (d : Dict) (ns' name' : Str)
    → map_of (set_map s ns name d) ns' name' ≡ put_map (map_of s) ns name d ns' name'
unfolding set_map
set_put_at s ns name d ns' name' = ground arith

pub set_put :
    (s : Versioned) (ns name : Str) (d : Dict)
    → map_of (set_map s ns name d) ≡ put_map (map_of s) ns name d
set_put s ns name d i ns' name' = set_put_at s ns name d ns' name' i

abbrev pub written : Str → ConfigMap → Versioned → Versioned
written ns cm s = set_map s ns cm.meta.name (contents cm.entries)

-- The laws, where the others are known to keep a property of the state.
module _ (P : Versioned → Type 0) (kept : (s : Versioned) → P s → P (intruded s)) where
  abbrev pub Polite : Versioned → Versioned → Type 0
  Polite s t = Later s t × (P s → P t)

  pub Polite-refl : (s : Versioned) → Polite s s
  Polite-refl s = (Later-refl s, λ p. p)

  pub Polite-intruded : (s : Versioned) → Polite s (intruded s)
  Polite-intruded s = (Later-set s _ _ _, kept s)

  abbrev pub polite_laws : SharedLaws busy
  polite_laws = record {
    maps = map_of;
    version = version_of;
    Others = Polite;
    others_refl = Polite-refl;
    others_trans = λ s t u (a, f) (b, g). (Later-trans s t u a b, λ p. g (f p));
    others_version = λ s t ns name (a, _). Later-version s t ns name a;
    get_value = λ ns name s h.
        let (named, versioned, read_version, held) = found_value s ns name (s ns name).1 h in
        (s, Polite-refl s, Polite-intruded s, named, versioned, read_version, held);
    get_failure = λ ns name s h. Polite-intruded s;
    get_not_found = λ ns name s h missing.
        (s, Polite-refl s, Polite-intruded s, found_failure s ns name (s ns name).1 h);
    create_value = λ ns cm s h.
        let (free, set) = created_value ns cm s (s ns cm.meta.name).1 h in
        (
          s,
          written ns cm s,
          Polite-refl s,
          rw set (Polite-intruded (written ns cm s)),
          free,
          set_put s _ _ _,
        );
    create_failure =
        λ ns cm s h. rw (created_failure ns cm s (s ns cm.meta.name).1 h) (Polite-refl s);
    update_value = λ ns cm s versioned h.
        let (same, set) = updated_value ns cm s h in
        (
          s,
          written ns cm s,
          Polite-refl s,
          rw set (Polite-intruded (written ns cm s)),
          same,
          set_put s _ _ _,
        );
    update_failure = λ ns cm s h. rw (updated_failure ns cm s h) (Polite-refl s);
  }

abbrev pub busy_laws : SharedLaws busy
busy_laws = polite_laws (λ _. Unit) (λ s p. p)

pub found_missing :
    (s : Versioned) (ns name : Str) (o : Option Dict) (e : LibError)
    → found s ns name o ≡ failure e
    → e.is_not_found ≡ true
found_missing s ns name none e h = ground arith
found_missing s ns name (some d) e h = cc

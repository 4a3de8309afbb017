-- ===== src/Controller/Checks/Validation.antt =====
-- What the checks of phases 1 to 5 establish, and that they only read.
use etcd_snapshot_driver.Common.{
  ℕ, suc, Str, length, length-ne_nil, reject_if, str_eq_iff, Bool, true, false, List, [], ◌∷◌, ◌++◌,
  map, status, invalid_argument, Result, ok, err, is_err, is_panic, ◌>>=◌, >>=-eq-ok, ◌≡◌, refl,
  sym, ◌∙◌, ◌≢◌, ◌⊎◌, inl, inr, arith,
}
use mathlib.Core.List.{map-append, append-nil, append_assoc}
use etcd_snapshot_driver.Env.{Env}
use etcd_snapshot_driver.Volume.{parse_volume_id}
use etcd_snapshot_driver.Etcd.Discovery.{ClusterInfo, Discovery}
use etcd_snapshot_driver.Controller.Checks.{
  VolumeInfo, parse_volumes, ClusterEntry, Found, nothing_found, add_cluster, returned, discovered,
  found_healthy, fit_cluster, check_volumes, discover_volume, validate_pvcs, discover_volumes,
  check_request,
}

-- The volumes are the parsed IDs, in order.
abbrev pub AreParsed : List Str → List VolumeInfo → Type 0
AreParsed [] [] = Unit
AreParsed [] (_ ∷ _) = ⊥
AreParsed (_ ∷ _) [] = ⊥
AreParsed (id ∷ ids) (v ∷ vs) =
    (parse_volume_id id ≡ ok (v.namespace, v.name)) × (v.original_id ≡ id) × AreParsed ids vs

parse_volumes-AreParsed :
    (i : ℕ) (ids : List Str) (vs : List VolumeInfo) → parse_volumes i ids ≡ ok vs → AreParsed ids vs
unfolding parse_volumes
parse_volumes-AreParsed i [] [] h = tt
parse_volumes-AreParsed i [] (_ ∷ _) h = cc
parse_volumes-AreParsed i (id ∷ ids) [] h = ground arith
parse_volumes-AreParsed i (id ∷ ids) (v ∷ vs) h =
    ground (arith, parse_volumes-AreParsed (suc i) ids vs)

-- Every cluster has the name, and that many endpoints.
abbrev pub AllLike : Str → ℕ → List ClusterEntry → Type 0
AllLike name n [] = Unit
AllLike name n (e ∷ es) = (e.info.name ≡ name) × (length e.info.endpoints ≡ n) × AllLike name n es

AllLike-append :
    (name : Str) (n : ℕ) (es : List ClusterEntry) (e : ClusterEntry)
    → AllLike name n es
    → e.info.name ≡ name
    → length e.info.endpoints ≡ n
    → AllLike name n (es ++ e ∷ [])
AllLike-append name n [] e h p q = (p, q, tt)
AllLike-append name n (x ∷ es) e (hp, hq, h) p q = (hp, hq, AllLike-append name n es e h p q)

-- All clusters found are like the first.
abbrev pub IsUniform : Found → Type 0
IsUniform f = AllLike f.first_cluster_name (length f.first_cluster_endpoints) f.cluster_infos

abbrev pub volumes_of : Found → List VolumeInfo
volumes_of f = map (λ e. e.volume_info) f.cluster_infos

abbrev pub extended : ℕ → VolumeInfo → ClusterInfo → Found → List ClusterEntry
extended i vol info f = f.cluster_infos ++ record { index = i; info = info; volume_info = vol } ∷ []

pub add_cluster-ok :
    (i : ℕ) (vol : VolumeInfo) (info : ClusterInfo) (f g : Found)
    → add_cluster i vol info f ≡ ok g
    → ((i ≡ 0)
        × (g ≡ record {
          cluster_infos = extended i vol info f;
          first_cluster_name = info.name;
          first_cluster_endpoints = info.endpoints;
        }))
      ⊎ ((info.name ≡ f.first_cluster_name)
          × (length info.endpoints ≡ length f.first_cluster_endpoints)
          × (g ≡ record f { cluster_infos = extended i vol info f }))
unfolding add_cluster
add_cluster-ok i vol info f g h = ground (arith, str_eq_iff info.name f.first_cluster_name)

-- Between two rounds: the clusters are uniform, and none has been found before the first round.
record Holds (i : ℕ) (f : Found) : Type 0 where
  uniform : IsUniform f
  at_start : i ≡ 0 → f.cluster_infos ≡ []

add_cluster-Holds :
    (i : ℕ) (vol : VolumeInfo) (info : ClusterInfo) (f g : Found)
    → Holds i f
    → add_cluster i vol info f ≡ ok g
    → Holds (suc i) g × (volumes_of g ≡ volumes_of f ++ vol ∷ [])
add_cluster-Holds i vol info f g h added = elim (add_cluster-ok i vol info f g added) [
  | inl (zero_i, e) ↦
      rw (e, h.at_start zero_i)
        (record { uniform = (refl, refl, tt); at_start = λ z. absurd (omega arith) }, refl)
  | inr (p, q, e) ↦ rw e (
    record {
      uniform = AllLike-append _ _ f.cluster_infos _ h.uniform p q;
      at_start = λ z. absurd (omega arith);
    },
    map-append _ f.cluster_infos _,
  )
]

module _ (E : Env) (d : Discovery E) where
  -- A round that succeeds has found a cluster that fits.
  discover_volume-ok :
      (i : ℕ) (vol : VolumeInfo) (f g : Found) (s : E.State)
      → (discover_volume E d i vol f s).0 ≡ ok g
      → (info : ClusterInfo) × (add_cluster i vol info f ≡ ok g)
  unfolding discover_volume
  discover_volume-ok i vol f g s e =
      let (info, _, e') = >>=-eq-ok (discovered E d i vol) (fit_cluster E d i vol f) s e in
      let (_, _, e'') =
        >>=-eq-ok (found_healthy E d i info) (λ _. returned E (add_cluster i vol info f))
          (discovered E d i vol s).1 e' in
      (info, e'')

  discover_volumes-Holds :
      (i : ℕ) (vols : List VolumeInfo) (f g : Found) (s : E.State)
      → Holds i f
      → (discover_volumes E d i vols f s).0 ≡ ok g
      → IsUniform g × (volumes_of g ≡ volumes_of f ++ vols)
  unfolding discover_volumes
  discover_volumes-Holds i [] f g s h e =
      let same : f ≡ g = cc in rw (← same) (h.uniform, sym (append-nil (volumes_of f)))
  discover_volumes-Holds i (vol ∷ vols) f g s h e =
      let (f', e₁, e₂) =
        >>=-eq-ok (discover_volume E d i vol f) (discover_volumes E d (suc i) vols) s e in
      let (info, added) = discover_volume-ok i vol f f' s e₁ in
      let (h', listed) = add_cluster-Holds i vol info f f' h added in
      let (uniform, all) = discover_volumes-Holds (suc i) vols f' g _ h' e₂ in
      (uniform, all ∙ rw (listed, append_assoc) refl)

  -- The clusters found are those of the volumes, in order.
  pub check_volumes-listed :
      (vols : List VolumeInfo) (s : E.State) (f : Found)
      → (check_volumes E d vols s).0 ≡ ok f
      → IsUniform f × (volumes_of f ≡ vols)
  check_volumes-listed vols s f h =
      let (_, _, found) =
        >>=-eq-ok (validate_pvcs E 0 vols) (λ _. discover_volumes E d 0 vols nothing_found) s h in
      discover_volumes-Holds 0 vols nothing_found f (validate_pvcs E 0 vols s).1
        (record { uniform = tt; at_start = λ _. refl }) found

  check_parsed :
      (ids : List Str) (s : E.State) (f : Found)
      → ((returned E (parse_volumes 0 ids) >>= check_volumes E d) s).0 ≡ ok f
      → AreParsed ids (volumes_of f) × IsUniform f
  check_parsed ids s f h =
      let (vols, parsed, e) =
        >>=-eq-ok (returned E (parse_volumes 0 ids)) (check_volumes E d) s h in
      let (uniform, all) = check_volumes-listed vols s f e in
      (rw all (parse_volumes-AreParsed 0 ids vols parsed), uniform)

  -- A request that passes the checks has a name and at least one volume ID, every volume ID parses,
  -- and the clusters found are those of the volumes, in order; they all have the first one's name and
  -- its number of endpoints.
  pub check_request-ok :
      (name : Str) (ids : List Str) (s : E.State) {f : Found}
      → (check_request E d name ids s).0 ≡ ok f
      → (name ≢ []) × (ids ≢ []) × AreParsed ids (volumes_of f) × IsUniform f
  unfolding check_request
  check_request-ok [] ids s {f} h = cc
  check_request-ok (c ∷ name) [] s {f} h = cc
  check_request-ok (c ∷ name) (id ∷ ids) s {f} h =
      let h' = rw (length-ne_nil (id ∷ ids) (λ e. cc), reject_if) at h in
      let (parsed, uniform) = check_parsed (id ∷ ids) s f h' in (λ e. cc, λ e. cc, parsed, uniform)

-- Where the name is there and some volume ID does not parse, the request is refused with the code
-- InvalidArgument.
abbrev pub is_invalid_argument : {A : Type 0} → Result A → Bool
is_invalid_argument (err (status invalid_argument _)) = true
is_invalid_argument _ = false

-- Some volume ID does not parse.
abbrev pub SomeMalformed : List Str → Type 0
SomeMalformed [] = ⊥
SomeMalformed (id ∷ ids) = (is_err (parse_volume_id id) ≡ true) ⊎ SomeMalformed ids

parse_total : (id : Str) → is_panic (parse_volume_id id) ≡ false
unfolding parse_volume_id
parse_total id = ground arith

parse_volumes-malformed :
    (i : ℕ) (ids : List Str) → SomeMalformed ids → is_invalid_argument (parse_volumes i ids) ≡ true
unfolding parse_volumes
parse_volumes-malformed i [] h = absurd h
parse_volumes-malformed i (id ∷ ids) (inl h) = ground arith
parse_volumes-malformed i (id ∷ ids) (inr h) =
    ground (arith, parse_total id, parse_volumes-malformed (suc i) ids h)

-- Where a volume ID is malformed, or the name or the volume IDs are missing, the request is refused
-- with the code InvalidArgument before anything has been read or written.
pub check_request-malformed :
    (E : Env) (d : Discovery E) (name : Str) (ids : List Str) (s : E.State)
    → (name ≡ []) ⊎ ((ids ≡ []) ⊎ SomeMalformed ids)
    → (is_invalid_argument (check_request E d name ids s).0 ≡ true)
      × ((check_request E d name ids s).1 ≡ s)
unfolding check_request
check_request-malformed E d name ids s h = ground (arith, parse_volumes-malformed 0 ids)

-- ===== src/Controller/Checks/Guards.antt =====
-- What the checks of phases 3 to 5 have seen of every volume.
use etcd_snapshot_driver.Common.{
  ℕ, suc, Str, lit, str_eq_iff, true, List, [], ◌∷◌, ◌++◌, Result, ok, value, Error, map_err-ok,
  map_err_state, Reply-cases, status, failed_precondition, internal, subst, sym, ap, ◌>>=◌,
  >>=-eq-ok, ◌≡◌, ◌⊎◌, inl, inr, arith,
}
use etcd_snapshot_driver.Env.{Env}
use etcd_snapshot_driver.Env.Frame.{ReadsKeep, map_err-Keeps}
use etcd_snapshot_driver.Kube.{Pvc}
use etcd_snapshot_driver.Etcd.Discovery.{
  ClusterInfo, Discovery, discover_cluster, validate_cluster_health,
}
use etcd_snapshot_driver.Etcd.Discovery.Found.{Finds, discover_cluster-ok_iff}
use etcd_snapshot_driver.Controller.Checks.{
  VolumeInfo, ClusterEntry, Found, nothing_found, has_write_access, add_cluster, returned,
  discovered, found_healthy, fit_cluster, check_pvc, at_volume, validate_pvc_for_group, pvc_checked,
  check_volumes, discover_volume, validate_pvcs, discover_volumes, check_request, parse_volumes,
}
use etcd_snapshot_driver.Controller.Checks.Validation.{
  extended, add_cluster-ok, volumes_of, check_volumes-listed,
}
use etcd_snapshot_driver.Controller.Checks.ReadOnly.{
  validate_pvc-Keeps, validate_pvcs-Keeps, discover_volume-Keeps,
}

-- Some mode lets one node or many write.
abbrev pub SomeWrites : List Str → Type 0
SomeWrites [] = ⊥
SomeWrites (m ∷ ms) = ((m ≡ lit "ReadWriteOnce") ⊎ (m ≡ lit "ReadWriteMany")) ⊎ SomeWrites ms

has_write_access-SomeWrites : (modes : List Str) → has_write_access modes ≡ true → SomeWrites modes
unfolding has_write_access
has_write_access-SomeWrites [] h = cc
has_write_access-SomeWrites (m ∷ ms) h = ground (
  arith,
  str_eq_iff m (lit "ReadWriteOnce"),
  str_eq_iff m (lit "ReadWriteMany"),
  has_write_access-SomeWrites ms,
)

-- What is put around the errors of each phase.
abbrev not_ready : ℕ → Error → Error
not_ready i e = status failed_precondition (at_volume (lit "PVC validation failed for volume ") i e)

abbrev not_found : ℕ → Error → Error
not_found i e = status internal (at_volume (lit "ETCD discovery failed for volume ") i e)

abbrev not_healthy : ℕ → Error → Error
not_healthy i e =
    status failed_precondition
      (at_volume (lit "ETCD cluster health validation failed for volume ") i e)

entries_lem :
    (i : ℕ) (vol : VolumeInfo) (info : ClusterInfo) (f g : Found)
    → add_cluster i vol info f ≡ ok g
    → g.cluster_infos ≡ extended i vol info f
entries_lem i vol info f g h = elim (add_cluster-ok i vol info f g h) [
  | inl (_, e) ↦ ap (λ g. g.cluster_infos) e
  | inr (_, _, e) ↦ ap (λ g. g.cluster_infos) e
]

check_pvc-ok :
    (E : Env) (pvc : Pvc E.Quantity) (s : E.State)
    → (check_pvc E pvc s).0 ≡ ok tt
    → (pvc.phase ≡ lit "Bound") × SomeWrites pvc.access_modes
unfolding check_pvc
check_pvc-ok E pvc s h = (
  ground (arith, str_eq_iff pvc.phase (lit "Bound")),
  has_write_access-SomeWrites pvc.access_modes (ground arith),
)

check_request_parsed :
    (E : Env) (d : Discovery E) (name : Str) (ids : List Str) (s : E.State) {f : Found}
    → (check_request E d name ids s).0 ≡ ok f
    → ((returned E (parse_volumes 0 ids) >>= check_volumes E d) s).0 ≡ ok f
unfolding check_request
check_request_parsed E d name ids s h = ground arith

module _ (E : Env) (P : E.State → Type 0) where
  -- The API has answered, at a moment with the property, that the claim is bound and can be written.
  abbrev pub SeenBound : VolumeInfo → Type 0
  SeenBound vol =
      (t : E.State) × (pvc : Pvc E.Quantity) × P t
      × ((E.get_pvc vol.namespace vol.name t).0 ≡ value pvc)
      × (pvc.phase ≡ lit "Bound")
      × SomeWrites pvc.access_modes

  abbrev pub AllBound : List VolumeInfo → Type 0
  AllBound [] = Unit
  AllBound (vol ∷ vols) = SeenBound vol × AllBound vols

  -- The cluster was found for its volume, and has passed the check of its health after that.
  abbrev pub SeenHealthy : Discovery E → ClusterEntry → Type 0
  SeenHealthy d e =
      let vol = e.volume_info in
      (t : E.State) × P t
      × Finds E d vol.namespace vol.name t e.info
      × ((validate_cluster_health E d e.info (discover_cluster E d vol.namespace vol.name t).1).0
          ≡ ok tt)

  abbrev pub AllHealthy : Discovery E → List ClusterEntry → Type 0
  AllHealthy d [] = Unit
  AllHealthy d (e ∷ es) = SeenHealthy d e × AllHealthy d es

  AllHealthy-append :
      (d : Discovery E) (es : List ClusterEntry) (e : ClusterEntry)
      → AllHealthy d es
      → SeenHealthy d e
      → AllHealthy d (es ++ e ∷ [])
  AllHealthy-append d [] e h seen = (seen, tt)
  AllHealthy-append d (x ∷ es) e (first, h) seen = (first, AllHealthy-append d es e h seen)

  validate_pvc-SeenBound :
      (vol : VolumeInfo) (s : E.State)
      → P s
      → (validate_pvc_for_group E vol.namespace vol.name s).0 ≡ ok tt
      → SeenBound vol
  unfolding validate_pvc_for_group
  validate_pvc-SeenBound vol s p h = elim (Reply-cases (E.get_pvc vol.namespace vol.name s).0) [
    | inl (pvc, e) ↦
        let (bound, writable) =
          check_pvc-ok E pvc (E.get_pvc vol.namespace vol.name s).1 (ground arith) in
        (s, pvc, p, e, bound, writable)
    | inr (x, e) ↦ absurd (ground arith)
  ]

  module _ (K : ReadsKeep E P) where
    validate_pvcs-AllBound :
        (i : ℕ) (vols : List VolumeInfo) (s : E.State)
        → P s
        → (validate_pvcs E i vols s).0 ≡ ok tt
        → AllBound vols
    unfolding validate_pvcs
    validate_pvcs-AllBound i [] s p h = tt
    validate_pvcs-AllBound i (vol ∷ vols) s p h =
        let (_, checked, rest) =
          >>=-eq-ok (pvc_checked E i vol) (λ _. validate_pvcs E (suc i) vols) s h in
        let m = validate_pvc_for_group E vol.namespace vol.name in
        (
          validate_pvc-SeenBound vol s p (map_err-ok (not_ready i) m s checked),
          validate_pvcs-AllBound (suc i) vols (pvc_checked E i vol s).1
              (map_err-Keeps P (not_ready i) m (validate_pvc-Keeps E P K vol.namespace vol.name) s
                p)
              rest,
        )

    discover_volume-Seen :
        (d : Discovery E) (i : ℕ) (vol : VolumeInfo) (f g : Found) (s : E.State)
        → P s
        → (discover_volume E d i vol f s).0 ≡ ok g
        → AllHealthy d f.cluster_infos
        → AllHealthy d g.cluster_infos
    unfolding discover_volume
    discover_volume-Seen d i vol f g s p h before =
        let m = discover_cluster E d vol.namespace vol.name in
        let (info, found, fits) = >>=-eq-ok (discovered E d i vol) (fit_cluster E d i vol f) s h in
        let (_, healthy, added) =
          >>=-eq-ok (found_healthy E d i info) (λ _. returned E (add_cluster i vol info f))
            (discovered E d i vol s).1 fits in
        let seen : SeenHealthy d (record { index = i; info = info; volume_info = vol }) = (
          s,
          p,
          (discover_cluster-ok_iff E d vol.namespace vol.name s info).0
              (map_err-ok (not_found i) m s found),
          rw (map_err_state (not_found i) m s) at
              (map_err-ok (not_healthy i) (validate_cluster_health E d info) _ healthy),
        ) in
        subst (AllHealthy d) (sym (entries_lem i vol info f g added))
          (AllHealthy-append d f.cluster_infos _ before seen)

    discover_volumes-AllHealthy :
        (d : Discovery E) (i : ℕ) (vols : List VolumeInfo) (f g : Found) (s : E.State)
        → P s
        → (discover_volumes E d i vols f s).0 ≡ ok g
        → AllHealthy d f.cluster_infos
        → AllHealthy d g.cluster_infos
    unfolding discover_volumes
    discover_volumes-AllHealthy d i [] f g s p h before =
        let same : f ≡ g = cc in subst (λ f. AllHealthy d f.cluster_infos) same before
    discover_volumes-AllHealthy d i (vol ∷ vols) f g s p h before =
        let (f', first, rest) =
          >>=-eq-ok (discover_volume E d i vol f) (discover_volumes E d (suc i) vols) s h in
        discover_volumes-AllHealthy d (suc i) vols f' g (discover_volume E d i vol f s).1
          (discover_volume-Keeps E P K d i vol f s p) rest
          (discover_volume-Seen d i vol f f' s p first before)

    check_volumes-Seen :
        (d : Discovery E) (vols : List VolumeInfo) (f : Found) (s : E.State)
        → P s
        → (check_volumes E d vols s).0 ≡ ok f
        → AllBound vols × AllHealthy d f.cluster_infos
    check_volumes-Seen d vols f s p h =
        let (_, bound, found) =
          >>=-eq-ok (validate_pvcs E 0 vols) (λ _. discover_volumes E d 0 vols nothing_found) s h in
        (
          validate_pvcs-AllBound 0 vols s p bound,
          discover_volumes-AllHealthy d 0 vols nothing_found f (validate_pvcs E 0 vols s).1
              (validate_pvcs-Keeps E P K 0 vols s p) found tt,
        )

    parsed-Seen :
        (d : Discovery E) (r : Result (List VolumeInfo)) (f : Found) (s : E.State)
        → P s
        → ((returned E r >>= check_volumes E d) s).0 ≡ ok f
        → AllBound (volumes_of f) × AllHealthy d f.cluster_infos
    parsed-Seen d r f s p h =
        let (vols, _, checked) = >>=-eq-ok (returned E r) (check_volumes E d) s h in
        let (bound, healthy) = check_volumes-Seen d vols f s p checked in
        let (_, listed) = check_volumes-listed E d vols s f checked in
        (subst AllBound (sym listed) bound, healthy)

    pub check_request-Seen :
        (d : Discovery E) (name : Str) (ids : List Str) (f : Found) (s : E.State)
        → P s
        → (check_request E d name ids s).0 ≡ ok f
        → AllBound (volumes_of f) × AllHealthy d f.cluster_infos
    unfolding check_request
    check_request-Seen d name ids f s p h =
        parsed-Seen d (parse_volumes 0 ids) f s p (check_request_parsed E d name ids s h)

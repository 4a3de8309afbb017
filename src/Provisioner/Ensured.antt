-- ===== src/Provisioner/Ensured.antt =====
-- When the PVC for snapshots is there.
use etcd_snapshot_driver.Common.{
  Str, lit, [], ◌∷◌, Option, none, some, refl, subst, true, Reply, value, failure, ok, ◌≡◌, ◌↔◌,
  ◌⊎◌, inl, inr, arith, Bool-cases, Reply-cases,
}
use etcd_snapshot_driver.Env.{Env}
use etcd_snapshot_driver.Kube.{Pvc}
use etcd_snapshot_driver.Provisioner.{
  snapshot_pvc_name, class_name, Provisioner, snapshot_pvc, create_snapshot_pvc,
  ensure_snapshot_pvc,
}

-- The server has the object, or says that it came into being meanwhile.
abbrev pub IsThere : {A : Type 0} → Reply A → Type 0
IsThere (value _) = Unit
IsThere (failure e) = e.is_already_exists ≡ true

-- The object is missing.
abbrev pub IsMissing : {A : Type 0} → Reply A → Type 0
IsMissing (value _) = ⊥
IsMissing (failure e) = e.is_not_found ≡ true

abbrev pub IsFound : {A : Type 0} → Reply A → Type 0
IsFound (value _) = Unit
IsFound (failure e) = ⊥

-- No class, where the name is empty.
abbrev pub configured : Str → Option Str
configured [] = none
configured (c ∷ rest) = some (c ∷ rest)

class-configured : (class : Str) → configured class ≡ class_name class
class-configured [] = refl
class-configured (c ∷ rest) = refl

module _ (E : Env) (p : Provisioner) (namespace : Str) (s : E.State) where
  -- The reading and the writing, by the code's own names.
  abbrev looked : Reply (Pvc E.Quantity) × E.State
  looked = E.get_pvc namespace snapshot_pvc_name s

  abbrev created : E.Quantity → Reply (Pvc E.Quantity) × E.State
  created q = E.create_pvc namespace (snapshot_pvc E p namespace q) looked.1

  is_there :
      (q : E.Quantity)
      → (create_snapshot_pvc E p namespace looked.1).0 ≡ ok snapshot_pvc_name
      → E.parse_quantity p.pvc_size ≡ value q
      → IsThere (created q).0
  unfolding create_snapshot_pvc
  is_there q h e = elim (Reply-cases (created q).0) [
    | inl (made, c) ↦ rw c tt
    | inr (x, c) ↦ rw c (ground arith)
  ]

  is_ready :
      (create_snapshot_pvc E p namespace looked.1).0 ≡ ok snapshot_pvc_name
      → (q : E.Quantity) × (E.parse_quantity p.pvc_size ≡ value q) × IsThere (created q).0
  unfolding create_snapshot_pvc
  is_ready h = elim (Reply-cases (E.parse_quantity p.pvc_size)) [
    | inl (q, e) ↦ (q, e, is_there q h e)
    | inr (x, e) ↦ absurd (ground arith)
  ]

  ready_ok :
      (q : E.Quantity)
      → E.parse_quantity p.pvc_size ≡ value q
      → IsThere (created q).0
      → (create_snapshot_pvc E p namespace looked.1).0 ≡ ok snapshot_pvc_name
  unfolding create_snapshot_pvc
  ready_ok q e there = elim (Reply-cases (created q).0) [
    | inl (made, c) ↦ ground arith
    | inr (x, c) ↦ let taken : x.is_already_exists ≡ true = rw c at there in ground arith
  ]

  ensured_sound :
      (ensure_snapshot_pvc E p namespace s).0 ≡ ok snapshot_pvc_name
      → IsFound looked.0
        ⊎ (IsMissing looked.0
            × ((q : E.Quantity) × (E.parse_quantity p.pvc_size ≡ value q) × IsThere (created q).0))
  unfolding ensure_snapshot_pvc
  ensured_sound h = elim (Reply-cases looked.0) [
    | inl (pvc, e) ↦ inl (rw e tt)
    | inr (x, e) ↦ elim (Bool-cases x.is_not_found) [
      | inl missing ↦ inr (rw e missing, is_ready (ground arith))
      | inr other ↦ absurd (ground arith)
    ]
  ]

  ensured_complete :
      IsFound looked.0
        ⊎ (IsMissing looked.0
            × ((q : E.Quantity) × (E.parse_quantity p.pvc_size ≡ value q) × IsThere (created q).0))
      → (ensure_snapshot_pvc E p namespace s).0 ≡ ok snapshot_pvc_name
  unfolding ensure_snapshot_pvc
  ensured_complete h = elim (Reply-cases looked.0) [
    | inl (pvc, e) ↦ ground arith
    | inr (x, e) ↦ elim h [
      | inl there ↦ absurd (rw e at there)
      | inr (gone, (q, parsed, there)) ↦
          let missing : x.is_not_found ≡ true = rw e at gone in
          ground (arith, ready_ok q parsed there)
    ]
  ]

  -- The claim to create: of that name, for one writer, with the size, and of the configured class, or of
  -- the cluster's default where none is configured.
  abbrev pub wanted : E.Quantity → Pvc E.Quantity
  wanted q = record {
    meta = record {
      name = lit "etcd-snapshots";
      namespace = namespace;
      labels = (lit "app", lit "etcd-snapshot-driver") ∷ [];
      resource_version = [];
    };
    phase = [];
    access_modes = lit "ReadWriteOnce" ∷ [];
    storage_request = some q;
    storage_class_name = configured p.storage_class;
  }

  -- The answers to the reading, and to the writing after it.
  abbrev pub look : Reply (Pvc E.Quantity) × E.State
  look = E.get_pvc namespace (lit "etcd-snapshots") s

  abbrev pub creation : E.Quantity → Reply (Pvc E.Quantity) × E.State
  creation q = E.create_pvc namespace (wanted q) look.1

  -- What is to be shown, for a name and a claim.
  abbrev Ensures : Str → (E.Quantity → Pvc E.Quantity) → Type 0
  Ensures name make =
      let (reply, t) = E.get_pvc namespace name s in
      ((ensure_snapshot_pvc E p namespace s).0 ≡ ok name) ↔ (
        IsFound reply
        ⊎ (IsMissing reply
            × ((q : E.Quantity) × (E.parse_quantity p.pvc_size ≡ value q)
                × IsThere (E.create_pvc namespace (make q) t).0)))

  wanted_lem : (q : E.Quantity) → snapshot_pvc E p namespace q ≡ wanted q
  unfolding snapshot_pvc snapshot_pvc_name
  wanted_lem q = rw (class-configured p.storage_class) refl

  name_lem : snapshot_pvc_name ≡ lit "etcd-snapshots"
  unfolding snapshot_pvc_name
  name_lem = refl

  -- The provisioner answers with the name etcd-snapshots exactly if the PVC of that name is found, or if
  -- it is missing, the size parses, and the PVC with this size and the configured storage class, for one
  -- writer, is created or said to exist already.
  pub ensure_snapshot_pvc_iff :
      ((ensure_snapshot_pvc E p namespace s).0 ≡ ok (lit "etcd-snapshots")) ↔ (
        IsFound look.0
        ⊎ (IsMissing look.0
            × ((q : E.Quantity) × (E.parse_quantity p.pvc_size ≡ value q)
                × IsThere (creation q).0)))
  ensure_snapshot_pvc_iff =
      subst (λ name. Ensures name wanted) name_lem
        (subst (Ensures snapshot_pvc_name) (λ i q. wanted_lem q i)
          (ensured_sound, ensured_complete))

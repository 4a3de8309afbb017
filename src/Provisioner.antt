-- ===== src/Provisioner.antt =====
-- `SnapshotPVCProvisioner` (internal/driver/snapshotpvc.go).
pub mod Ensured
use etcd_snapshot_driver.Common.{
  ℕ, ◌+◌, ◌/◌, ◌%◌, Str, lit, is_empty, ◌||◌, Option, none, some, [], ◌∷◌, ◌++◌, ltb, ◌==◌,
  if◌then◌else◌, value, failure, wrapped, lib, Act, pure, throw,
}
use etcd_snapshot_driver.Env.{Env}
use etcd_snapshot_driver.Kube.{Pvc}

unfoldable pub snapshot_pvc_name : Str
unfolding lit
snapshot_pvc_name = lit "etcd-snapshots"

-- `%q` of package fmt. Bytes from 128 on are taken for printable UTF-8 and kept.
hex_digit : ℕ → ℕ
hex_digit n = if ltb n 10 then b'0' + n else 87 + n

quote_byte : ℕ → Str
unfolding hex_digit
quote_byte c =
    if c == b'"' || c == 92
    then 92 ∷ c ∷ []
    else if c == 7
    then lit "\\a"
    else if c == 8
    then lit "\\b"
    else if c == 12
    then lit "\\f"
    else if c == 10
    then lit "\\n"
    else if c == 13
    then lit "\\r"
    else if c == 9
    then lit "\\t"
    else if c == 11
    then lit "\\v"
    else if ltb c 32 || c == 127
    then lit "\\x" ++ (hex_digit (c / 16) ∷ hex_digit (c % 16) ∷ [])
    else c ∷ []

quote_bytes : Str → Str
quote_bytes [] = []
quote_bytes (c ∷ s) = quote_byte c ++ quote_bytes s

unfoldable pub quote : Str → Str
unfolding quote_bytes quote_byte
quote s = b'"' ∷ (quote_bytes s ++ b'"' ∷ [])

pub record Provisioner : Type 0 where
  pub storage_class : Str
  pub pvc_size : Str

-- `nil` where the class is empty: the cluster's default.
abbrev pub class_name : Str → Option Str
class_name c = if is_empty c then none else some c

module _ (E : Env) (p : Provisioner) where
  unfoldable pub snapshot_pvc : Str → E.Quantity → Pvc E.Quantity
  snapshot_pvc namespace quantity = record {
    meta = record {
      name = snapshot_pvc_name;
      namespace = namespace;
      labels = (lit "app", lit "etcd-snapshot-driver") ∷ [];
      resource_version = [];
    };
    phase = [];
    access_modes = lit "ReadWriteOnce" ∷ [];
    storage_request = some quantity;
    storage_class_name = class_name p.storage_class;
  }

  -- The PVC is missing: create it. It may have come into being meanwhile.
  unfoldable pub create_snapshot_pvc : Str → Act E.State Str
  unfolding snapshot_pvc
  create_snapshot_pvc namespace s = elim (E.parse_quantity p.pvc_size) [
    | failure e ↦ throw (wrapped (lit "invalid snapshot PVC size " ++ quote p.pvc_size) (lib e)) s
    | value quantity ↦
        let (reply, s') = E.create_pvc namespace (snapshot_pvc namespace quantity) s in
        elim reply [
          | value _ ↦ pure snapshot_pvc_name s'
          | failure e ↦
              if e.is_already_exists
              then pure snapshot_pvc_name s'
              else throw (wrapped (lit "failed to create snapshot PVC") (lib e)) s'
        ]
  ]

  unfoldable pub ensure_snapshot_pvc : Str → Act E.State Str
  unfolding create_snapshot_pvc
  ensure_snapshot_pvc namespace s =
      let (reply, s') = E.get_pvc namespace snapshot_pvc_name s in
      elim reply [
        | value _ ↦ pure snapshot_pvc_name s'
        | failure e ↦
            if e.is_not_found
            then create_snapshot_pvc namespace s'
            else throw (wrapped (lit "failed to check for existing snapshot PVC") (lib e)) s'
      ]

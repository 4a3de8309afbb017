-- ===== src/Codec.antt =====
-- An injective encoding of the metadata, which shows that a faithful one exists.
use etcd_snapshot_driver.Common.{
  ℕ, zero, suc, Str, lit, length, take, drop, take-append_left, drop-append_left, Bool, true, false,
  List, [], ◌∷◌, ◌++◌, ℤ, pos, negsuc, Reply, value, failure, ◌≡◌, refl,
}
use etcd_snapshot_driver.Snapshot.{SnapshotMetadata, GroupSnapshotMetadata, IsFaithful, Codecs}

abbrev put_str : Str → Str → Str
put_str a rest = length a ∷ (a ++ rest)

abbrev get_str : Str → Str × Str
get_str [] = ([], [])
get_str (n ∷ s) = (take n s, drop n s)

get-put_str : (a rest : Str) → get_str (put_str a rest) ≡ (a, rest)
get-put_str a rest = rw (take-append_left, drop-append_left) refl

abbrev put_all : List Str → Str → Str
put_all [] rest = rest
put_all (a ∷ xs) rest = put_str a (put_all xs rest)

abbrev get_all : ℕ → Str → List Str × Str
get_all zero s = ([], s)
get_all (suc n) s = let (a, s₁) = get_str s in let (xs, s₂) = get_all n s₁ in (a ∷ xs, s₂)

abbrev count : List Str → ℕ
count [] = zero
count (_ ∷ xs) = suc (count xs)

get-put_all : (xs : List Str) (rest : Str) → get_all (count xs) (put_all xs rest) ≡ (xs, rest)
get-put_all [] rest = refl
get-put_all (a ∷ xs) rest =
    rw
      (
        take-append_left a (put_all xs rest),
        drop-append_left a (put_all xs rest),
        get-put_all xs rest,
      )
      refl

abbrev put_strs : List Str → Str → Str
put_strs xs rest = count xs ∷ put_all xs rest

abbrev get_strs : Str → List Str × Str
get_strs [] = ([], [])
get_strs (n ∷ s) = get_all n s

abbrev put_bool : Bool → ℕ
put_bool true = 1
put_bool false = 0

abbrev get_bool : ℕ → Bool
get_bool zero = false
get_bool (suc _) = true

get-put_bool : (b : Bool) → get_bool (put_bool b) ≡ b
get-put_bool true = refl
get-put_bool false = refl

abbrev put_int : ℤ → Str → Str
put_int (pos n) rest = 0 ∷ n ∷ rest
put_int (negsuc n) rest = 1 ∷ n ∷ rest

abbrev get_int : Str → ℤ × Str
get_int (zero ∷ n ∷ rest) = (pos n, rest)
get_int (suc _ ∷ n ∷ rest) = (negsuc n, rest)
get_int _ = (pos 0, [])

get-put_int : (z : ℤ) (rest : Str) → get_int (put_int z rest) ≡ (z, rest)
get-put_int (pos n) rest = refl
get-put_int (negsuc n) rest = refl

abbrev malformed : {A : Type 0} → Reply A
malformed =
    failure (record { text = lit "malformed"; is_not_found = false; is_already_exists = false })

abbrev group_text : GroupSnapshotMetadata → Str
group_text m = put_str m.group_snapshot_id (
    put_str m.snapshot_id (
      put_strs m.source_volume_ids (
        put_str m.cluster_name (
          put_str m.snapshot_pvc_name
            (put_str m.snapshot_pvc_namespace (m.creation_time ∷ put_bool m.ready_to_use ∷ []))))))

abbrev group_last : Str → Str → List Str → Str → Str → Str → Str → Reply GroupSnapshotMetadata
group_last id sid vols cluster pvc ns (t ∷ b ∷ _) = value (record {
  group_snapshot_id = id;
  snapshot_id = sid;
  source_volume_ids = vols;
  cluster_name = cluster;
  snapshot_pvc_name = pvc;
  snapshot_pvc_namespace = ns;
  creation_time = t;
  ready_to_use = get_bool b;
})
group_last _ _ _ _ _ _ _ = malformed

abbrev group_of : Str → Reply GroupSnapshotMetadata
group_of s =
    let (id, s₁) = get_str s in
    let (sid, s₂) = get_str s₁ in
    let (vols, s₃) = get_strs s₂ in
    let (cluster, s₄) = get_str s₃ in
    let (pvc, s₅) = get_str s₄ in
    let (ns, s₆) = get_str s₅ in group_last id sid vols cluster pvc ns s₆

group-group_text : (m : GroupSnapshotMetadata) → group_of (group_text m) ≡ value m
group-group_text m =
    rw
      (
        take-append_left, drop-append_left, take-append_left, drop-append_left, get-put_all,
        take-append_left, drop-append_left, take-append_left, drop-append_left, take-append_left,
        drop-append_left, get-put_bool,
      )
      refl

abbrev single_text : SnapshotMetadata → Str
single_text m = put_str m.snapshot_id (
    put_str m.source_volume_id (
      put_str m.cluster_name (
        m.creation_time
        ∷ put_int m.size (
            put_str m.checksum_sha256
              (put_bool m.ready_to_use ∷ put_str m.pvc_name (put_str m.namespace []))))))

abbrev single_last : Str → Str → Str → ℕ → ℤ → Str → Str → Reply SnapshotMetadata
single_last id vol cluster t size sum [] = malformed
single_last id vol cluster t size sum (b ∷ s) =
    let (pvc, s₁) = get_str s in
    value (record {
      snapshot_id = id;
      source_volume_id = vol;
      cluster_name = cluster;
      creation_time = t;
      size = size;
      checksum_sha256 = sum;
      ready_to_use = get_bool b;
      pvc_name = pvc;
      namespace = (get_str s₁).0;
    })

abbrev single_middle : Str → Str → Str → Str → Reply SnapshotMetadata
single_middle id vol cluster [] = malformed
single_middle id vol cluster (t ∷ s) =
    let (size, s₁) = get_int s in
    let (sum, s₂) = get_str s₁ in single_last id vol cluster t size sum s₂

abbrev single_of : Str → Reply SnapshotMetadata
single_of s =
    let (id, s₁) = get_str s in
    let (vol, s₂) = get_str s₁ in let (cluster, s₃) = get_str s₂ in single_middle id vol cluster s₃

single-single_text : (m : SnapshotMetadata) → single_of (single_text m) ≡ value m
single-single_text m =
    rw
      (
        take-append_left, drop-append_left, take-append_left, drop-append_left, take-append_left,
        drop-append_left, get-put_int, take-append_left, drop-append_left, take-append_left,
        drop-append_left, take-append_left, get-put_bool,
      )
      refl

abbrev pub codecs : Codecs
codecs = record {
  single = record { marshal = λ m. value (single_text m); unmarshal = single_of };
  group = record { marshal = λ m. value (group_text m); unmarshal = group_of };
}

pub group_codec-IsFaithful : IsFaithful codecs.group
group_codec-IsFaithful = record { unmarshal-marshal = λ a e. go a e }
  where
    go :
        (a : GroupSnapshotMetadata) {text : Str}
        → codecs.group.marshal a ≡ value text
        → codecs.group.unmarshal text ≡ value a
    go a {text} e = let same : group_text a ≡ text = cc in rw (← same) (group-group_text a)

pub single_codec-IsFaithful : IsFaithful codecs.single
single_codec-IsFaithful = record { unmarshal-marshal = λ a e. go a e }
  where
    go :
        (a : SnapshotMetadata) {text : Str}
        → codecs.single.marshal a ≡ value text
        → codecs.single.unmarshal text ≡ value a
    go a {text} e = let same : single_text a ≡ text = cc in rw (← same) (single-single_text a)

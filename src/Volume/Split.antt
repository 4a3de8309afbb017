-- ===== src/Volume/Split.antt =====
-- What `parse_volume_id` accepts, and that it takes apart what a caller joins.
use etcd_snapshot_driver.Common.{
  ℕ, zero, suc, ◌+◌, ◌-◌, ◌≤◌, ◌<◌, Str, lit, length, get_elem?, take, drop, is_empty,
  length-append, length-ne_nil, take-append_left, Bool, true, false, Option, none, some, [], ◌∷◌,
  ◌++◌, ◌==◌, ==_iff, ok, ◌≡◌, refl, sym, ap, ◌∙◌, ◌≢◌, ◌⊎◌, ◌↔◌, inl, inr, subst, Bool-cases,
  arith,
}
use native.Mathlib.Nat.{zero-add, suc-add}
use native.Mathlib.Numerals.{add-one}
use etcd_snapshot_driver.Volume.{is_slash, last_slash, split_volume_id, parse_volume_id}

-- No byte of `s` from position `lo` up to `hi` is a slash.
abbrev pub FreeBetween : Str → ℕ → ℕ → Type 0
FreeBetween s lo hi = (j : ℕ) → lo ≤ j → j < hi → is_slash (get_elem? s j) ≡ false

-- A text without slashes.
abbrev pub IsSlashFree : Str → Type 0
IsSlashFree [] = Unit
IsSlashFree (c ∷ s) = (c ≢ b'/') × IsSlashFree s

pub last_slash-some :
    (s : Str) (n i : ℕ)
    → last_slash s n ≡ some i
    → (i < n) × (is_slash (get_elem? s i) ≡ true) × FreeBetween s (suc i) n
unfolding last_slash
last_slash-some s zero i h = cc
last_slash-some s (suc n) i h = elim (Bool-cases (is_slash (get_elem? s n))) [
  | inl hit ↦
      let e : n ≡ i = ground arith in (omega arith, rw (← e) hit, λ j lo hi. absurd (omega arith))
  | inr miss ↦
      let (below, slash, free) = last_slash-some s n i (ground arith) in
      (omega arith, slash, extend free miss)
]
  where
    extend :
        FreeBetween s (suc i) n → is_slash (get_elem? s n) ≡ false → FreeBetween s (suc i) (suc n)
    extend free miss j lo hi = grind (arith, free)

pub last_slash-none : (s : Str) (n : ℕ) → last_slash s n ≡ none → FreeBetween s 0 n
unfolding last_slash
last_slash-none s zero h j lo hi = absurd (omega arith)
last_slash-none s (suc n) h j lo hi =
    grind
      (arith, λ (e : last_slash s n ≡ none) (p : j < n). last_slash-none s n e j (omega arith) p)

-- The loop finds the slash that no other follows.
last_slash-eq :
    (s : Str) (n i : ℕ)
    → i < n
    → is_slash (get_elem? s i) ≡ true
    → FreeBetween s (suc i) n
    → last_slash s n ≡ some i
unfolding last_slash
last_slash-eq s zero i h slash free = absurd (omega arith)
last_slash-eq s (suc n) i h slash free = elim (Bool-cases (is_slash (get_elem? s n))) [
  | inl hit ↦ elim (Bool-cases (i == n)) [
    | inl same ↦ ground arith
    | inr other ↦ ground (arith, free n)
  ]
  | inr miss ↦ elim (Bool-cases (i == n)) [
    | inl same ↦ let e : i ≡ n = ground arith in absurd (true-false (rw e at slash) miss)
    | inr other ↦
        rw miss (last_slash-eq s n i (ground arith) slash λ j lo hi. free j lo (omega arith))
  ]
]
  where
    true-false : {b : Bool} → b ≡ true → b ≡ false → ⊥
    true-false p q = cc

pub last_slash-eq_none : (s : Str) (n : ℕ) → FreeBetween s 0 n → last_slash s n ≡ none
unfolding last_slash
last_slash-eq_none s zero free = refl
last_slash-eq_none s (suc n) free =
    rw (free n (omega arith) (omega arith))
      (last_slash-eq_none s n (λ j lo hi. free j lo (omega arith)))

pub IsSlashFree-get : (s : Str) → IsSlashFree s → (j : ℕ) → is_slash (get_elem? s j) ≡ false
IsSlashFree-get [] free j = refl
IsSlashFree-get (c ∷ s) free zero = ground arith
IsSlashFree-get (c ∷ s) free (suc j) = IsSlashFree-get s free.1 j

pub FreeBetween-IsSlashFree : (s : Str) → FreeBetween s 0 (length s) → IsSlashFree s
FreeBetween-IsSlashFree [] free = tt
FreeBetween-IsSlashFree (c ∷ s) free = (
  ground (arith, free 0 (omega arith) (omega arith)),
  FreeBetween-IsSlashFree s λ j lo hi. free (suc j) (omega arith) (omega arith),
)

-- Positions in a joined text.
get_elem?-join :
    (ns name : Str) (c : ℕ) (j : ℕ)
    → (get_elem? (ns ++ c ∷ name) (length ns) ≡ some c)
      × (get_elem? (ns ++ c ∷ name) (length ns + suc j) ≡ get_elem? name j)
get_elem?-join [] name c j = (refl, rw zero-add)
get_elem?-join (a ∷ ns) name c j =
    let (here, later) = get_elem?-join ns name c j in (here, rw suc-add later)

pub drop-FreeBetween : (s : Str) (i : ℕ) → FreeBetween s i (length s) → IsSlashFree (drop i s)
drop-FreeBetween s zero free = FreeBetween-IsSlashFree s free
drop-FreeBetween [] (suc i) free = tt
drop-FreeBetween (c ∷ s) (suc i) free =
    drop-FreeBetween s i λ j lo hi. free (suc j) (omega arith) (omega arith)

-- A text is what stands before a slash, the slash, and what stands behind it.
pub split_at_slash :
    (s : Str) (i : ℕ) → is_slash (get_elem? s i) ≡ true → s ≡ take i s ++ b'/' ∷ drop (suc i) s
split_at_slash [] i h = cc
split_at_slash (c ∷ s) zero h = ap (λ t. t ∷ s) ((==_iff c b'/').0 h)
split_at_slash (c ∷ s) (suc i) h = ap (λ t. c ∷ t) (split_at_slash s i h)

-- What a volume ID may say: a namespace and a name with a slash between, or a bare name.
abbrev pub Names : Str → Str → Str → Type 0
Names id ns name =
    IsSlashFree name
    × (name ≢ [])
    × (((ns ≢ []) × (id ≡ ns ++ b'/' ∷ name)) ⊎ ((ns ≡ lit "default") × (id ≡ name)))

is_empty-false : (s : Str) → s ≢ [] → is_empty s ≡ false
is_empty-false [] h = absurd (h refl)
is_empty-false (_ ∷ _) h = refl

is_empty-ne : (s : Str) → is_empty s ≡ false → s ≢ []
is_empty-ne [] h = cc
is_empty-ne (_ ∷ _) h = λ e. cc

pub last_slash-join :
    (ns name : Str)
    → IsSlashFree name
    → last_slash (ns ++ b'/' ∷ name) (length (ns ++ b'/' ∷ name)) ≡ some (length ns)
last_slash-join ns name free =
    last_slash-eq (ns ++ b'/' ∷ name) _ (length ns) (omega (arith, length-append ns (b'/' ∷ name)))
      (rw (get_elem?-join ns name b'/' 0).0 refl) λ j lo hi. later j lo
  where
    later : (j : ℕ) → suc (length ns) ≤ j → is_slash (get_elem? (ns ++ b'/' ∷ name) j) ≡ false
    later j lo =
        let e : j ≡ length ns + suc (j - suc (length ns)) = omega arith in
        rw (e, (get_elem?-join ns name b'/' (j - suc (length ns))).1) (IsSlashFree-get name free _)

drop-join : (ns name : Str) (c : ℕ) → drop (suc (length ns)) (ns ++ c ∷ name) ≡ name
drop-join [] name c = refl
drop-join (_ ∷ ns) name c = drop-join ns name c

split-join :
    (ns name : Str)
    → ns ≢ []
    → name ≢ []
    → split_volume_id (ns ++ b'/' ∷ name) (some (length ns)) ≡ ok (ns, name)
unfolding split_volume_id
split-join ns name p q =
    rw (add-one, take-append_left, drop-join, is_empty-false ns p, is_empty-false name q) refl

length-join-pos : (ns name : Str) → (length (ns ++ b'/' ∷ name) == 0) ≡ false
length-join-pos ns name = ground (arith, length-append ns (b'/' ∷ name))

-- Joining a namespace and a slash-free name and parsing the result gives both back.
parse_volume_id-join :
    (ns name : Str)
    → ns ≢ []
    → name ≢ []
    → IsSlashFree name
    → parse_volume_id (ns ++ b'/' ∷ name) ≡ ok (ns, name)
unfolding parse_volume_id
parse_volume_id-join ns name p q free =
    rw (length-join-pos, last_slash-join ns name free) (split-join ns name p q)

split_volume_id-Names :
    (id ns name : Str) (cut : Option ℕ)
    → last_slash id (length id) ≡ cut
    → id ≢ []
    → split_volume_id id cut ≡ ok (ns, name)
    → Names id ns name
unfolding split_volume_id
split_volume_id-Names id ns name none e p h =
    let same : id ≡ name = cc in
    let free = FreeBetween-IsSlashFree id (last_slash-none id _ e) in
    (subst IsSlashFree same free, rw (← same) p, inr (cc, same))
split_volume_id-Names id ns name (some i) e p h =
    let (_, slash, free) = last_slash-some id _ i e in
    let front : is_empty (take i id) ≡ false = ground arith in
    let back : is_empty (drop (i + 1) id) ≡ false = ground arith in
    let first : take i id ≡ ns = ground arith in
    let last : drop (i + 1) id ≡ name = ground arith in
    let last' : drop (suc i) id ≡ name = rw add-one at last in
    (
      subst IsSlashFree last' (drop-FreeBetween id (suc i) free),
      rw (← last) (is_empty-ne _ back),
      inl (rw (← first) (is_empty-ne _ front), rw (← first, ← last') (split_at_slash id i slash)),
    )

Names-ne_nil : (id ns name : Str) → Names id ns name → id ≢ []
Names-ne_nil id ns name (_, p, inr (_, e)) = rw e p
Names-ne_nil id [] name (_, _, inl (q, _)) = absurd (q refl)
Names-ne_nil id (_ ∷ ns) name (_, _, inl (_, e)) = λ z. cc (sym e ∙ z)

parse_volume_id-bare :
    (name : Str) → name ≢ [] → IsSlashFree name → parse_volume_id name ≡ ok (lit "default", name)
unfolding parse_volume_id
parse_volume_id-bare name p free =
    rw
      (
        length-ne_nil name p,
        last_slash-eq_none name (length name) (λ j lo hi. IsSlashFree-get name free j),
      )
      refl

parse_volume_id_complete :
    (id ns name : Str) → Names id ns name → parse_volume_id id ≡ ok (ns, name)
parse_volume_id_complete id ns name (free, q, inl (p, e)) =
    rw e (parse_volume_id-join ns name p q free)
parse_volume_id_complete id ns name (free, q, inr (d, e)) =
    rw (e, d) (parse_volume_id-bare name q free)

parse_volume_id_sound : (id ns name : Str) → parse_volume_id id ≡ ok (ns, name) → Names id ns name
unfolding parse_volume_id
parse_volume_id_sound [] ns name h = cc
parse_volume_id_sound (c ∷ s) ns name h =
    split_volume_id-Names (c ∷ s) ns name (last_slash (c ∷ s) (length (c ∷ s))) refl (λ z. cc)
      (ground arith)

-- A volume ID parses to a namespace and a name exactly if the name is not empty and has no slash, and
-- the ID is the namespace, which is then not empty, a slash and the name, or is the bare name with the
-- namespace "default".
pub parse_volume_id_iff :
    (id ns name : Str) → (parse_volume_id id ≡ ok (ns, name)) ↔ Names id ns name
parse_volume_id_iff id ns name =
    (parse_volume_id_sound id ns name, parse_volume_id_complete id ns name)

-- ===== src/Server/Listener/Endpoint.antt =====
-- Which endpoints a listener is made for.
use etcd_snapshot_driver.Common.{
  is_value, ℕ, suc, Str, length, drop, take, drop-append_left, true, none, some, [], ◌∷◌, ◌++◌,
  value, Result, ok, err, panic, is_panic, is_err, take-append_left, ◌≡◌, ◌↔◌, refl, ap, ◌∙◌,
  Option-cases, Bool-cases, inl, inr, arith,
}
use etcd_snapshot_driver.Host.{Host}
use etcd_snapshot_driver.Volume.{last_slash}
use etcd_snapshot_driver.Volume.Split.{
  IsSlashFree, last_slash-some, last_slash-none, FreeBetween-IsSlashFree, drop-FreeBetween,
  split_at_slash, last_slash-join, last_slash-eq_none, IsSlashFree-get,
}
use etcd_snapshot_driver.Server.Listener.{
  has_prefix, trim_prefix, unix_scheme, listen_at, setup_listener,
}

has_prefix-append : (t r : Str) → has_prefix (t ++ r) t ≡ true
unfolding has_prefix
has_prefix-append [] r = refl
has_prefix-append (b ∷ t) r = ground (arith, has_prefix-append t r)

has_prefix_sound : (s t : Str) → has_prefix s t ≡ true → s ≡ t ++ drop (length t) s
unfolding has_prefix
has_prefix_sound s [] h = refl
has_prefix_sound [] (b ∷ t) h = cc
has_prefix_sound (a ∷ s) (b ∷ t) h =
    let head : a ≡ b = ground arith in
    let tail : has_prefix s t ≡ true = ground arith in cc (head, has_prefix_sound s t tail)

-- What `last_slash` says of an address.
no_slash : (address : Str) → last_slash address (length address) ≡ none → IsSlashFree address
no_slash address e = FreeBetween-IsSlashFree address (last_slash-none address _ e)

none_of_free : (address : Str) → IsSlashFree address → last_slash address (length address) ≡ none
none_of_free address free =
    last_slash-eq_none address (length address) (λ j lo hi. IsSlashFree-get address free j)

-- The address `dir/name`.
abbrev pub joined : Str → Str → Str
joined dir name = dir ++ b'/' ∷ name

split_address :
    (address : Str) (i : ℕ)
    → last_slash address (length address) ≡ some i
    → (address ≡ joined (take i address) (drop (suc i) address))
      × IsSlashFree (drop (suc i) address)
split_address address i e =
    let (lt, slash, free) = last_slash-some address _ i e in
    (split_at_slash address i slash, drop-FreeBetween address (suc i) free)

module _ (H : Host) where
  setup_listener-unix :
      (address : Str) (s : H.State)
      → setup_listener H (unix_scheme ++ address) s ≡ listen_at H address s
  unfolding setup_listener
  setup_listener-unix address s =
      rw (has_prefix-append unix_scheme address, setup_listener)
        (ap (λ a. listen_at H a s) (drop-append_left unix_scheme address))

  -- An endpoint is either `unix://` and an address, or refused.
  data Form (end_point : Str) : Type 0 where
    unix : (address : Str) → end_point ≡ unix_scheme ++ address → Form end_point
    other : ((s : H.State) → is_err (setup_listener H end_point s).0 ≡ true) → Form end_point

  form : (end_point : Str) → Form end_point
  unfolding setup_listener
  form end_point = elim (Bool-cases (has_prefix end_point unix_scheme)) [
    | inl e ↦ unix (trim_prefix end_point unix_scheme) (has_prefix_sound end_point unix_scheme e)
    | inr e ↦ other (λ s. rw (e, setup_listener) refl)
  ]

  -- Where the address has no slash, the directory cannot be cut out.
  listen_at-free :
      (address : Str) (s : H.State)
      → IsSlashFree address
      → is_panic (listen_at H address s).0 ≡ true
  unfolding listen_at
  listen_at-free address s free = rw (none_of_free address free, listen_at) refl

  panic-free :
      (address : Str) (s : H.State)
      → is_panic (listen_at H address s).0 ≡ true
      → IsSlashFree address
  unfolding listen_at
  panic-free address s h = elim (Option-cases (last_slash address (length address))) [
    | inl e ↦ no_slash address e
    | inr (i, e) ↦ absurd (ground arith)
  ]

  both : (r : Result H.Listener) → is_err r ≡ true → is_panic r ≡ true → ⊥
  both (ok _) p q = cc
  both (err _) p q = cc
  both (panic _) p q = cc

  panic_sound :
      (end_point : Str) (s : H.State)
      → is_panic (setup_listener H end_point s).0 ≡ true
      → (address : Str) × (end_point ≡ unix_scheme ++ address) × IsSlashFree address
  panic_sound end_point s h = elim (form end_point) [
    | unix address e ↦
        (address, e, panic-free address s (rw (e, setup_listener-unix address s) at h))
    | other refused ↦ absurd (both _ (refused s) h)
  ]

  -- An endpoint ends the program in a panic exactly if it is `unix://` and an address without a slash.
  pub setup_listener-panic_iff :
      (end_point : Str) (s : H.State)
      → (is_panic (setup_listener H end_point s).0 ≡ true)
        ↔ ((address : Str) × (end_point ≡ unix_scheme ++ address) × IsSlashFree address)
  setup_listener-panic_iff end_point s =
      (panic_sound end_point s, λ p. rw (p.1, setup_listener-unix p.0 s) (listen_at-free p.0 s p.2))

  -- The directory of `dir/name` can be made, and the socket then listens.
  abbrev pub Listens : Str → Str → H.State → H.Listener → Type 0
  Listens dir name s l =
      let (_, s₁) = H.remove_file (joined dir name) s in
      let (made, s₂) = H.mkdir_all dir s₁ in
      (is_value made ≡ true) × ((H.listen_unix (joined dir name) s₂).0 ≡ value l)

  listen_joined :
      (dir name : Str) (s : H.State) (l : H.Listener)
      → IsSlashFree name
      → ((listen_at H (joined dir name) s).0 ≡ ok l) ↔ Listens dir name s l
  unfolding listen_at
  listen_joined dir name s l free = (λ h. ground (arith, facts), λ h. ground (arith, facts))
    where
      facts :
          (last_slash (joined dir name) (length (joined dir name)) ≡ some (length dir))
          × (take (length dir) (joined dir name) ≡ dir)
      facts = (last_slash-join dir name free, take-append_left dir (b'/' ∷ name))

  address_of :
      (address : Str) (s : H.State) (l : H.Listener)
      → (listen_at H address s).0 ≡ ok l
      → (dir : Str) × (name : Str) × (address ≡ joined dir name) × IsSlashFree name
  address_of address s l h = elim (Option-cases (last_slash address (length address))) [
    | inl e ↦ cc (rw h at (listen_at-free address s (no_slash address e)))
    | inr (i, e) ↦
        let (split, free) = split_address address i e in
        (take i address, drop (suc i) address, split, free)
  ]

  ok_sound :
      (end_point : Str) (s : H.State) (l : H.Listener)
      → (setup_listener H end_point s).0 ≡ ok l
      → (dir : Str) × (name : Str) × (end_point ≡ unix_scheme ++ joined dir name)
        × IsSlashFree name
        × Listens dir name s l
  ok_sound end_point s l h = elim (form end_point) [
    | unix address e ↦
        let (dir, name, split, free) =
          address_of address s l (rw (e, setup_listener-unix address s) at h) in
        (
          dir,
          name,
          e ∙ ap (λ a. unix_scheme ++ a) split,
          free,
          (listen_joined dir name s l free).0 (rw (e, setup_listener-unix address s, split) at h),
        )
    | other refused ↦ cc (rw h at (refused s))
  ]

  -- A listener is made exactly if the endpoint is `unix://` and an address with a slash, the directory
  -- before its last slash can be made, and the socket then listens. An old socket file that cannot be
  -- removed is no hindrance by itself.
  pub setup_listener-ok_iff :
      (end_point : Str) (s : H.State) (l : H.Listener)
      → ((setup_listener H end_point s).0 ≡ ok l) ↔ (
          (dir : Str) × (name : Str) × (end_point ≡ unix_scheme ++ joined dir name)
          × IsSlashFree name
          × Listens dir name s l)
  setup_listener-ok_iff end_point s l = (
    ok_sound end_point s l,
    λ p. rw (p.2, setup_listener-unix (joined p.0 p.1) s) ((listen_joined p.0 p.1 s l p.3).1 p.4),
  )

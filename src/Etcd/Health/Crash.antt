-- ===== src/Etcd/Health/Crash.antt =====
-- Where `validate_health` panics instead of returning an error.
use etcd_snapshot_driver.Common.{
  is_value, ◌<◌, Str, length-ne_nil, Bool, true, false, Option, none, List, [], ◌∷◌, value, pure,
  is_err, is_panic, >>=-panic, >>=-panic_after, ◌≡◌, refl, ◌≢◌, ◌⊎◌, inl, inr, arith,
}
use etcd_snapshot_driver.Env.{Env}
use etcd_snapshot_driver.Kube.{Member, MemberList}
use etcd_snapshot_driver.Etcd.Health.Quorum.{voting-le-length}
use etcd_snapshot_driver.Etcd.Health.{
  voting_members, counted, Tally, no_one, probe, probe_first, check_member, check_members,
  judge_members, validate_health,
}

-- A voting member without a client URL, or with a first one that is in `down`.
abbrev pub FirstDown : (Str → Bool) → List Str → Type 0
FirstDown down [] = Unit
FirstDown down (url ∷ _) = down url ≡ true

abbrev pub IsDown : (Str → Bool) → Member → Type 0
IsDown down m = (m.is_learner ≡ false) × FirstDown down m.client_urls

abbrev pub SomeDown : (Str → Bool) → List Member → Type 0
SomeDown down [] = ⊥
SomeDown down (m ∷ ms) = IsDown down m ⊎ SomeDown down ms

some_vote : (down : Str → Bool) (ms : List Member) → SomeDown down ms → 0 < voting_members ms
unfolding voting_members
some_vote down [] h = absurd h
some_vote down (m ∷ ms) (inl h) = ground arith
some_vote down (m ∷ ms) (inr h) = ground (arith, some_vote down ms h)

module _ (E : Env) (tls : Option E.TlsConfig) (down : Str → Bool)
    (unreachable : (url : Str) (s : E.State)
      → down url ≡ true
      → is_value (E.new_client (url ∷ []) tls s).0 ≡ false)
    (nil_close : (s : E.State) → is_panic (E.close_client none s).0 ≡ true) where
  probe_down : (url : Str) (s : E.State) → down url ≡ true → is_panic (probe E tls url s).0 ≡ true
  unfolding probe
  probe_down url s h =
      ground (arith, unreachable url s h, nil_close (E.new_client (url ∷ []) tls s).1)

  -- A round of the loop ends well or in a panic.
  check_member_ends :
      (responder : Str) (m : Member) (t : Tally) (s : E.State)
      → is_err (check_member E tls responder m t s).0 ≡ false
  unfolding check_member probe
  check_member_ends responder m t s = ground arith

  probe_first_down :
      (urls : List Str) (s : E.State)
      → FirstDown down urls
      → is_panic (probe_first E tls urls s).0 ≡ true
  probe_first_down [] s h = refl
  probe_first_down (url ∷ _) s h = probe_down url s h

  check_member_down :
      (responder : Str) (m : Member) (t : Tally) (s : E.State)
      → IsDown down m
      → is_panic (check_member E tls responder m t s).0 ≡ true
  unfolding check_member
  check_member_down responder m t s (votes, h) =
      rw (votes, check_member)
        (>>=-panic (probe_first E tls m.client_urls)
          (λ healthy. pure (counted responder m t healthy)) s (probe_first_down m.client_urls s h))

  check_members_down :
      (responder : Str) (ms : List Member) (t : Tally) (s : E.State)
      → SomeDown down ms
      → is_panic (check_members E tls responder ms t s).0 ≡ true
  unfolding check_members
  check_members_down responder [] t s h = absurd h
  check_members_down responder (m ∷ ms) t s (inl h) =
      >>=-panic (check_member E tls responder m t) (check_members E tls responder ms) s
        (check_member_down responder m t s h)
  check_members_down responder (m ∷ ms) t s (inr h) =
      >>=-panic_after (check_member E tls responder m t) (check_members E tls responder ms) s
        (check_member_ends responder m t s) (λ t'. check_members_down responder ms t' _ h)

  judge_members_down :
      (l : MemberList) (s : E.State)
      → SomeDown down l.members
      → is_panic (judge_members E tls l s).0 ≡ true
  unfolding judge_members
  judge_members_down l s h = ground (
    arith,
    some_vote down l.members h,
    voting-le-length l.members,
    check_members_down l.header_member_id l.members no_one s h,
  )

  -- Where there is an endpoint, the cluster can be dialled and lists its members, dialling an endpoint
  -- that is down fails and closing a nil client panics: one voting member whose first client URL is
  -- down, or that has none, ends the check in a panic, however many others are healthy.
  pub validate_health_down :
      (endpoints : List Str) (s : E.State) {client : E.Client} {l : MemberList}
      → endpoints ≢ []
      → (E.new_client endpoints tls s).0 ≡ value client
      → (E.member_list client (E.new_client endpoints tls s).1).0 ≡ value l
      → SomeDown down l.members
      → is_panic (validate_health E tls endpoints s).0 ≡ true
  unfolding validate_health
  validate_health_down endpoints s {client} {l} some_endpoint dialled listed h = ground (
    arith,
    length-ne_nil endpoints some_endpoint,
    judge_members_down l (E.member_list client (E.new_client endpoints tls s).1).1 h,
  )

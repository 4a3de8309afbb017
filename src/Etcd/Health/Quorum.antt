-- ===== src/Etcd/Health/Quorum.antt =====
-- What a verdict of `validate_health` says of the cluster, and where it panics.
use etcd_snapshot_driver.Common.{
  is_value, ◌&&◌, ℕ, suc, ◌+◌, ◌*◌, ◌≤◌, ◌<◌, Str, lit, length, str_eq, Bool, true, false, not,
  ◌||◌, Option, some, List, [], ◌∷◌, ◌==◌, if◌then◌else◌, Reply-cases, value, ok, reject_if,
  length-ne_nil, >>=-ok, ◌≡◌, refl, ◌∙◌, ◌≢◌, ◌↔◌, ◌⊎◌, inl, inr, Bool-cases, arith,
}
use native.Mathlib.Nat.{zero-add}
use etcd_snapshot_driver.Env.{Env}
use etcd_snapshot_driver.Kube.{Member, MemberList}
use etcd_snapshot_driver.Etcd.Health.{
  voting_members, Tally, no_one, verdict, asked, probe, probe_first, counted, check_member,
  check_members, judge_members, check_cluster, validate_health,
}

-- The first client URL of the member is in `healthy`.
unfoldable pub answers : (Str → Bool) → Member → Bool
answers healthy m = elim m.client_urls [ [] ↦ false | url ∷ _ ↦ healthy url ]

-- How many voting members answer.
unfoldable pub healthy_members : (Str → Bool) → List Member → ℕ
healthy_members healthy [] = 0
healthy_members healthy (m ∷ ms) =
    let rest = healthy_members healthy ms in
    if not m.is_learner && answers healthy m then suc rest else rest

-- Some voting member has the ID.
unfoldable pub is_voter : Str → List Member → Bool
is_voter id [] = false
is_voter id (m ∷ ms) = (not m.is_learner && str_eq id m.id) || is_voter id ms

-- Every voting member has a client URL.
abbrev pub AllAddressed : List Member → Type 0
AllAddressed [] = Unit
AllAddressed (m ∷ ms) = (m.is_learner ≡ true ⊎ m.client_urls ≢ []) × AllAddressed ms

module _ (E : Env) (tls : Option E.TlsConfig) where
  -- The members answer alike for the time of the check: every one can be dialled, and those in
  -- `healthy` answer a read. Closing a client does not panic.
  pub record IsSteady (healthy : Str → Bool) : Type 0 where
    pub dialled : (url : Str) (s : E.State) → is_value (E.new_client (url ∷ []) tls s).0 ≡ true
    pub asked :
        (url : Str) (s t : E.State) {client : E.Client}
        → (E.new_client (url ∷ []) tls s).0 ≡ value client
        → is_value (E.get_key client (lit "health") t).0 ≡ healthy url
    pub closed : (client : E.Client) (s : E.State) → (E.close_client (some client) s).0 ≡ ok tt

  check_learner :
      (responder : Str) (m : Member) (t : Tally) (s : E.State)
      → m.is_learner ≡ true
      → (check_member E tls responder m t s).0 ≡ ok t
  unfolding check_member
  check_learner responder m t s l = rw (l, check_member) refl

  module _ {healthy : Str → Bool} (steady : IsSteady healthy) where
    probe_lem : (url : Str) (s : E.State) → (probe E tls url s).0 ≡ ok (healthy url)
    unfolding probe
    probe_lem url s = elim (Reply-cases (E.new_client (url ∷ []) tls s).0) [
      | inl (client, e) ↦
          rw (e, asked)
            (ground (
              arith,
              steady.asked url s (E.new_client (url ∷ []) tls s).1 e,
              steady.closed client
                  (E.get_key client (lit "health") (E.new_client (url ∷ []) tls s).1).1,
            ))
      | inr (x, e) ↦ ground (arith, steady.dialled url s)
    ]

    probe_first_lem :
        (urls : List Str) (m : Member) (s : E.State)
        → m.client_urls ≡ urls
        → urls ≢ []
        → (probe_first E tls urls s).0 ≡ ok (answers healthy m)
    unfolding answers
    probe_first_lem [] m s e h = absurd (h refl)
    probe_first_lem (url ∷ _) m s e h = rw (probe_lem url s, e) refl

    check_voter :
        (responder : Str) (m : Member) (t : Tally) (s : E.State)
        → m.is_learner ≡ false
        → m.client_urls ≢ []
        → (check_member E tls responder m t s).0 ≡ ok (counted responder m t (answers healthy m))
    unfolding check_member answers
    check_voter responder m t s v h =
        rw (v, check_member)
          (rw
            (>>=-ok (probe_first E tls m.client_urls) _ s
              (probe_first_lem m.client_urls m s refl h))
            refl)

    check_members_lem :
        (responder : Str) (ms : List Member) (t : Tally) (s : E.State)
        → AllAddressed ms
        → (check_members E tls responder ms t s).0
          ≡ ok (record {
            healthy_members = t.healthy_members + healthy_members healthy ms;
            has_leader = t.has_leader || is_voter responder ms;
          })
    unfolding check_members healthy_members is_voter
    check_members_lem responder [] t s h = ground arith
    check_members_lem responder (m ∷ ms) t s h = elim (Bool-cases m.is_learner) [
      | inl learner ↦
          rw
            (>>=-ok (check_member E tls responder m t) (check_members E tls responder ms) s
              (check_learner responder m t s learner))
            (check_members_lem responder ms t _ h.1 ∙ rw learner refl)
      | inr voter ↦
          rw
            (>>=-ok (check_member E tls responder m t) (check_members E tls responder ms) s
              (check_voter responder m t s voter (addressed voter)))
            (check_members_lem responder ms (counted responder m t (answers healthy m)) _ h.1
              ∙ ground arith)
    ]
      where
        addressed : m.is_learner ≡ false → m.client_urls ≢ []
        addressed v = ground arith

-- What the program calls a healthy cluster: a voting majority answers, and the member that answered
-- the member list is itself a voting member.
abbrev pub IsHealthy : (Str → Bool) → MemberList → Type 0
IsHealthy healthy l =
    (voting_members l.members < 2 * healthy_members healthy l.members)
    × (is_voter l.header_member_id l.members ≡ true)

healthy-le-voting :
    (healthy : Str → Bool) (ms : List Member) → healthy_members healthy ms ≤ voting_members ms
unfolding healthy_members voting_members
healthy-le-voting healthy [] = omega arith
healthy-le-voting healthy (m ∷ ms) = ground (arith, healthy-le-voting healthy ms)

pub voting-le-length : (ms : List Member) → voting_members ms ≤ length ms
unfolding voting_members
voting-le-length [] = omega arith
voting-le-length (m ∷ ms) = ground (arith, voting-le-length ms)

verdict_iff :
    (v : ℕ) (t : Tally)
    → (verdict v t ≡ ok tt) ↔ ((v < 2 * t.healthy_members) × (t.has_leader ≡ true))
unfolding verdict
verdict_iff v t = (λ h. ground arith, λ h. ground arith)

module _ (E : Env) (tls : Option E.TlsConfig) {healthy : Str → Bool}
    (steady : IsSteady E tls healthy) where
  some_vote :
      (l : MemberList)
      → IsHealthy healthy l
      → ((length l.members == 0) ≡ false) × ((voting_members l.members == 0) ≡ false)
  some_vote l h = ground (arith, healthy-le-voting healthy l.members, voting-le-length l.members)

  judged :
      (l : MemberList) (s : E.State)
      → AllAddressed l.members
      → (length l.members == 0) ≡ false
      → (voting_members l.members == 0) ≡ false
      → (judge_members E tls l s).0
        ≡ verdict (voting_members l.members) (record {
          healthy_members = healthy_members healthy l.members;
          has_leader = is_voter l.header_member_id l.members;
        })
  unfolding judge_members
  judged l s h members voters =
      rw (members, voters, reject_if, reject_if)
        (rw
          (>>=-ok (check_members E tls l.header_member_id l.members no_one) _ s
            (check_members_lem E tls steady l.header_member_id l.members no_one s h))
          (rw zero-add refl))

  judge_members_lem :
      (l : MemberList) (s : E.State)
      → AllAddressed l.members
      → ((judge_members E tls l s).0 ≡ ok tt) ↔ IsHealthy healthy l
  unfolding judge_members
  judge_members_lem l s h = elim (Bool-cases (length l.members == 0)) [
    | inl empty ↦ (λ r. ground arith, λ good. cc (empty, (some_vote l good).0))
    | inr members ↦ elim (Bool-cases (voting_members l.members == 0)) [
      | inl none_votes ↦ (λ r. ground arith, λ good. cc (none_votes, (some_vote l good).1))
      | inr voters ↦ rw (judged l s h members voters) (verdict_iff (voting_members l.members) _)
    ]
  ]

  check_cluster_lem :
      (client : E.Client) (l : MemberList) (s : E.State)
      → (E.member_list client s).0 ≡ value l
      → (check_cluster E tls client s).0 ≡ (judge_members E tls l (E.member_list client s).1).0
  unfolding check_cluster
  check_cluster_lem client l s listed =
      ground (arith, steady.closed client (judge_members E tls l (E.member_list client s).1).1)

  -- Where there is an endpoint, the cluster can be dialled and lists its members, every voting member
  -- has a client URL, every member can be dialled, members answer alike for the time of the check and
  -- closing a client succeeds: the cluster is found healthy exactly if more than half of the voting
  -- members answer and the member that listed them is a voting one.
  pub validate_health_iff :
      (endpoints : List Str) (s : E.State) {client : E.Client} {l : MemberList}
      → endpoints ≢ []
      → (E.new_client endpoints tls s).0 ≡ value client
      → (E.member_list client (E.new_client endpoints tls s).1).0 ≡ value l
      → AllAddressed l.members
      → ((validate_health E tls endpoints s).0 ≡ ok tt) ↔ IsHealthy healthy l
  unfolding validate_health
  validate_health_iff endpoints s {client} {l} some_endpoint dialled listed addressed =
      rw (validated ∙ check_cluster_lem client l (E.new_client endpoints tls s).1 listed)
        (judge_members_lem l _ addressed)
    where
      validated :
          (validate_health E tls endpoints s).0
          ≡ (check_cluster E tls client (E.new_client endpoints tls s).1).0
      validated = ground (arith, length-ne_nil endpoints some_endpoint)

-- ===== src/Etcd/Health/ReadOnly.antt =====
-- The health check only reads.
use etcd_snapshot_driver.Common.{
  Str, lit, length, Bool, false, Option, none, some, List, [], ◌∷◌, ◌==◌, Reply, value, failure,
  Act, ◌>>=◌, ◌>>◌, pure, call_or, Bool-cases, inl, inr, wrapped, lib, errorf, reject_if, arith,
}
use etcd_snapshot_driver.Env.{Env}
use etcd_snapshot_driver.Env.Frame.{Keeps, >>=-Keeps, call_or-Keeps, reject_if-Keeps, ReadsKeep}
use etcd_snapshot_driver.Kube.{Member, MemberList}
use etcd_snapshot_driver.Etcd.Health.{
  deferred, ignoring, probe, probe_first, counted, asked, Tally, check_member, check_members,
  no_one, judge_members, check_cluster, validate_health,
}

module _ (E : Env) (P : E.State → Type 0) (K : ReadsKeep E P) where
  closing-Keeps : (c : Option E.Client) (b : Bool) → Keeps P (ignoring (E.close_client c) >> pure b)
  closing-Keeps c b s p = ground (arith, K.close_client c s p)

  deferred-Keeps :
      (c : Option E.Client) (m : Act E.State Unit)
      → Keeps P m
      → Keeps P (deferred (E.close_client c) m)
  deferred-Keeps c m h s p = ground (arith, K.close_client c (m s).1 (h s p))

  module _ (tls : Option E.TlsConfig) where
    asked-Keeps : (r : Reply E.Client) → Keeps P (asked E tls r)
    asked-Keeps (failure x) s p = closing-Keeps none false s p
    asked-Keeps (value c) s p = closing-Keeps (some c) _ _ (K.get_key c (lit "health") s p)

    probe_first-Keeps : (urls : List Str) → Keeps P (probe_first E tls urls)
    unfolding probe
    probe_first-Keeps [] s p = p
    probe_first-Keeps (url ∷ _) s p = asked-Keeps _ _ (K.new_client (url ∷ []) tls s p)

    check_member-Keeps :
        (responder : Str) (m : Member) (t : Tally) → Keeps P (check_member E tls responder m t)
    unfolding check_member
    check_member-Keeps responder m t s p = elim (Bool-cases m.is_learner) [
      | inl learner ↦ rw (learner, check_member) p
      | inr voter ↦
          rw (voter, check_member)
            (>>=-Keeps P (probe_first E tls m.client_urls)
              (λ healthy. pure (counted responder m t healthy)) (probe_first-Keeps m.client_urls)
              (λ _ s p. p) s p)
    ]

    check_members-Keeps :
        (responder : Str) (ms : List Member) (t : Tally)
        → Keeps P (check_members E tls responder ms t)
    unfolding check_members
    check_members-Keeps responder [] t s p = p
    check_members-Keeps responder (m ∷ ms) t s p =
        >>=-Keeps P (check_member E tls responder m t) (check_members E tls responder ms)
          (check_member-Keeps responder m t) (check_members-Keeps responder ms) s p

    judge_members-Keeps : (l : MemberList) → Keeps P (judge_members E tls l)
    unfolding judge_members
    judge_members-Keeps l s p =
        ground (arith, check_members-Keeps l.header_member_id l.members no_one s p)

    check_cluster-Keeps : (c : E.Client) → Keeps P (check_cluster E tls c)
    unfolding check_cluster
    check_cluster-Keeps c = deferred-Keeps (some c) _ (
        >>=-Keeps P
          (call_or (E.member_list c) (λ e. wrapped (lit "failed to get member list") (lib e)))
          (judge_members E tls) (call_or-Keeps P (E.member_list c) _ (K.member_list c))
          judge_members-Keeps)

    pub validate_health-Keeps : (endpoints : List Str) → Keeps P (validate_health E tls endpoints)
    unfolding validate_health
    validate_health-Keeps endpoints =
        >>=-Keeps P (reject_if (length endpoints == 0) (errorf (lit "no endpoints provided")))
          (λ _. dialled) (reject_if-Keeps P _ _)
          (λ _.
            >>=-Keeps P
              (call_or (E.new_client endpoints tls)
                (λ e. wrapped (lit "failed to create ETCD client") (lib e)))
              (check_cluster E tls)
              (call_or-Keeps P (E.new_client endpoints tls) _ (K.new_client endpoints tls))
              check_cluster-Keeps)
      where
        dialled : Act E.State Unit
        dialled =
            call_or (E.new_client endpoints tls)
              (λ e. wrapped (lit "failed to create ETCD client") (lib e))
            >>= check_cluster E tls

-- ===== src/Etcd/Health.antt =====
-- `HealthValidator.ValidateHealth` (internal/etcd/health.go).
pub mod ReadOnly
pub mod Quorum
pub mod Crash
use etcd_snapshot_driver.Common.{
  is_value, ℕ, suc, ◌+◌, ◌/◌, Str, lit, length, str_eq, Bool, true, false, not, ◌||◌, Option, none,
  some, List, [], ◌∷◌, ◌++◌, ltb, ◌==◌, if◌then◌else◌, LibError, Reply, value, failure, Error,
  errorf, wrapped, lib, Act, Result, ok, err, panic, pure, throw, panics, reject_if, call_or, ◌>>=◌,
  ◌>>◌,
}
use etcd_snapshot_driver.Common.Decimal.{itoa}
use etcd_snapshot_driver.Env.{Env}
use etcd_snapshot_driver.Kube.{Member, MemberList}

-- The learners are passed over.
unfoldable pub voting_members : List Member → ℕ
voting_members [] = 0
voting_members (m ∷ ms) = let rest = voting_members ms in if m.is_learner then rest else suc rest

abbrev pub quorum_required : ℕ → ℕ
quorum_required voting = voting / 2 + 1

-- `healthyMembers` and `hasLeader`
pub record Tally : Type 0 where
  pub healthy_members : ℕ
  pub has_leader : Bool

abbrev pub no_one : Tally
no_one = record { healthy_members = 0; has_leader = false }

-- The tests after the loop.
unfoldable pub verdict : ℕ → Tally → Result Unit
verdict voting t =
    if ltb t.healthy_members (quorum_required voting)
    then err (
        errorf (
          lit "insufficient healthy members: "
          ++ (itoa t.healthy_members
              ++ (lit "/"
                  ++ (itoa voting ++ (lit " required " ++ itoa (quorum_required voting)))))))
    else if not t.has_leader
    then err (errorf (lit "cluster has no leader"))
    else ok tt

-- A body under `defer client.Close()`: the close runs last, also after a panic.
abbrev pub deferred : {S A : Type 0} → Act S Unit → Act S A → Act S A
deferred close body s =
    let (r, s₁) = body s in
    let (c, s₂) = close s₁ in elim c [ panic p ↦ (panic p, s₂) | _ ↦ (r, s₂) ]

-- A call whose error is dropped.
abbrev pub ignoring : {S : Type 0} → Act S Unit → Act S Unit
ignoring m s = let (r, s') = m s in elim r [ panic p ↦ (panic p, s') | _ ↦ (ok tt, s') ]

-- The tally after a voting member has been asked.
abbrev pub counted : Str → Member → Tally → Bool → Tally
counted responder m t healthy = record {
  healthy_members = if healthy then suc t.healthy_members else t.healthy_members;
  has_leader = str_eq responder m.id || t.has_leader;
}

module _ (E : Env) (tls : Option E.TlsConfig) where
  -- One member is dialled and asked for the key "health". Where the dial fails the code closes the
  -- nil client that it was given.
  abbrev pub asked : Reply E.Client → Act E.State Bool
  asked (failure _) s = (ignoring (E.close_client none) >> pure false) s
  asked (value client) s =
      let (reply, s₁) = E.get_key client (lit "health") s in
      (ignoring (E.close_client (some client)) >> pure (is_value reply)) s₁

  unfoldable pub probe : Str → Act E.State Bool
  probe url s = let (reply, s₁) = E.new_client (url ∷ []) tls s in asked reply s₁

  -- `member.ClientURLs[0]`
  abbrev pub probe_first : List Str → Act E.State Bool
  probe_first [] = panics (lit "runtime error: index out of range [0] with length 0")
  probe_first (url ∷ _) = probe url

  -- One round of the loop.
  unfoldable pub check_member : Str → Member → Tally → Act E.State Tally
  unfolding probe
  check_member responder m t = elim m.is_learner [
    | true ↦ pure t
    | false ↦ probe_first m.client_urls >>= λ healthy. pure (counted responder m t healthy)
  ]

  unfoldable pub check_members : Str → List Member → Tally → Act E.State Tally
  unfolding check_member
  check_members responder [] t = pure t
  check_members responder (m ∷ ms) t = check_member responder m t >>= check_members responder ms

  unfoldable pub judge_members : MemberList → Act E.State Unit
  unfolding check_members voting_members verdict
  judge_members l = do
    reject_if (length l.members == 0) (errorf (lit "cluster has no members"))
    let voting = voting_members l.members
    reject_if (voting == 0) (errorf (lit "cluster has no voting members"))
    t ← check_members l.header_member_id l.members no_one
    λ s. (verdict voting t, s)

  -- What follows the first `New`, with the client that it returned.
  unfoldable pub check_cluster : E.Client → Act E.State Unit
  unfolding judge_members
  check_cluster client = deferred (E.close_client (some client)) (
      call_or (E.member_list client) (λ e. wrapped (lit "failed to get member list") (lib e))
      >>= judge_members)

  unfoldable pub validate_health : List Str → Act E.State Unit
  unfolding check_cluster
  validate_health endpoints = do
    reject_if (length endpoints == 0) (errorf (lit "no endpoints provided"))
    client ←
        call_or (E.new_client endpoints tls)
          (λ e. wrapped (lit "failed to create ETCD client") (lib e))
    check_cluster client

-- ===== src/Job/Executor/Polling.antt =====
-- When the wait for a job ends, and how.
use etcd_snapshot_driver.Common.{
  ℕ, zero, suc, ◌<◌, ◌≤◌, Str, lit, true, false, none, some, ◌≡◌, ◌≢◌, refl, ap, ◌⊎◌, ◌↔◌, inl, inr,
  is_positive, Reply, value, failure, CtxErr, Bool-cases, arith,
}
use etcd_snapshot_driver.Common.Dict
use etcd_snapshot_driver.Env.{Env}
use etcd_snapshot_driver.Kube.{Job}
use etcd_snapshot_driver.Job.Executor.{
  Outcome, succeeded_outcome, job_failed, judge, judge_reply, poll_job,
}

module _ (E : Env) (j : Job E.Quantity) where
  abbrev look : E.State → Reply (Job E.Quantity) × E.State
  look = E.get_job j.meta.namespace j.meta.name

  -- The state after `k` looks at the job, and the answer of the look after those.
  unfoldable pub after : ℕ → E.State → E.State
  after zero s = s
  after (suc k) s = after k (look s).1

  abbrev pub answer : ℕ → E.State → Reply (Job E.Quantity)
  answer k s = (look (after k s)).0

  -- The API has answered with a job that has a succeeded pod, or with one that has a failed pod and
  -- none that succeeded.
  abbrev pub ShowsSuccess : Reply (Job E.Quantity) → Type 0
  ShowsSuccess (value seen) = is_positive seen.counts.succeeded ≡ true
  ShowsSuccess (failure _) = ⊥

  abbrev pub ShowsFailure : Reply (Job E.Quantity) → Type 0
  ShowsFailure (value seen) =
      (is_positive seen.counts.succeeded ≡ false) × (is_positive seen.counts.failed ≡ true)
  ShowsFailure (failure _) = ⊥

  abbrev pub ShowsEnd : Reply (Job E.Quantity) → Type 0
  ShowsEnd r = ShowsSuccess r ⊎ ShowsFailure r

  -- Neither: no answer, or a job that still runs.
  abbrev pub ShowsNothing : Reply (Job E.Quantity) → Type 0
  ShowsNothing (value seen) =
      (is_positive seen.counts.succeeded ≡ false) × (is_positive seen.counts.failed ≡ false)
  ShowsNothing (failure _) = Unit

  -- How a look is judged.
  data Sight (id : Str) (r : Reply (Job E.Quantity)) : Type 0 where
    success : ShowsSuccess r → (o : Outcome) → judge_reply id r ≡ some o → o.1 ≡ none → Sight id r
    broken : ShowsFailure r → (o : Outcome) → judge_reply id r ≡ some o → o.1 ≢ none → Sight id r
    nothing : ShowsNothing r → judge_reply id r ≡ none → Sight id r

  sight : (id : Str) (r : Reply (Job E.Quantity)) → Sight id r
  unfolding judge
  sight id (failure e) = nothing tt refl
  sight id (value seen) = elim (Bool-cases (is_positive seen.counts.succeeded)) [
    | inl won ↦ success won (succeeded_outcome id) (rw won) refl
    | inr not_won ↦ elim (Bool-cases (is_positive seen.counts.failed)) [
      | inl lost ↦ broken (not_won, lost) (job_failed id seen.counts) (rw (not_won, lost)) (λ e. cc)
      | inr not_lost ↦ nothing (not_won, not_lost) (rw (not_won, not_lost))
    ]
  ]

  not-both : (r : Reply (Job E.Quantity)) → ShowsSuccess r → ShowsFailure r → ⊥
  not-both (value seen) h k = cc (h, k.0)
  not-both (failure _) h k = h

  not-won : (r : Reply (Job E.Quantity)) → ShowsSuccess r → ShowsNothing r → ⊥
  not-won (value seen) h k = cc (h, k.0)
  not-won (failure _) h k = h

  not-none : (r : Reply (Job E.Quantity)) → ShowsFailure r → ShowsNothing r → ⊥
  not-none (value seen) h k = cc (h.1, k.1)
  not-none (failure _) h k = h

  module _ (cause : CtxErr) where
    abbrev Wins : ℕ → E.State → Type 0
    Wins n s =
        (k : ℕ) × (k < n)
        × ShowsSuccess (answer k s)
        × ((i : ℕ) → i < k → ShowsNothing (answer i s))

    quiet_before :
        (k : ℕ) (s : E.State)
        → ShowsNothing (answer 0 s)
        → ((i : ℕ) → i < k → ShowsNothing (answer i (look s).1))
        → (i : ℕ) → i < suc k
        → ShowsNothing (answer i s)
    unfolding after
    quiet_before k s first rest zero lt = first
    quiet_before k s first rest (suc i) lt = rest i (omega arith)

    poll_job-Wins : (n : ℕ) (s : E.State) → (poll_job E j cause n s).0.1 ≡ none → Wins n s
    unfolding poll_job after
    poll_job-Wins zero s h = cc
    poll_job-Wins (suc n) s h =
        elim (sight (Dict.get (lit "snapshot-id") j.meta.labels) (look s).0) [
          | success won o e ok ↦ (0, omega arith, won, λ i lt. absurd (omega arith))
          | broken lost o e bad ↦ absurd (bad (rw (e, poll_job) at h))
          | nothing quiet e ↦
              let (k, lt, won, before) = poll_job-Wins n (look s).1 (rw (e, poll_job) at h) in
              (suc k, omega arith, won, quiet_before k s quiet before)
        ]

    Wins-poll_job : (n : ℕ) (s : E.State) → Wins n s → (poll_job E j cause n s).0.1 ≡ none
    unfolding poll_job after
    Wins-poll_job zero s (k, lt, _, _) = absurd (omega arith)
    Wins-poll_job (suc n) s (zero, lt, won, before) =
        elim (sight (Dict.get (lit "snapshot-id") j.meta.labels) (look s).0) [
          | success _ o e ok ↦ rw (e, poll_job) ok
          | broken lost o e bad ↦ absurd (not-both _ won lost)
          | nothing quiet e ↦ absurd (not-won _ won quiet)
        ]
    Wins-poll_job (suc n) s (suc k, lt, won, before) =
        elim (sight (Dict.get (lit "snapshot-id") j.meta.labels) (look s).0) [
          | success now o e ok ↦ rw (e, poll_job) ok
          | broken lost o e bad ↦ absurd (not-none _ lost (before 0 (omega arith)))
          | nothing quiet e ↦
              rw (e, poll_job)
                (Wins-poll_job n (look s).1
                  (k, omega arith, won, λ i before_k. before (suc i) (omega arith)))
        ]

    -- Where the context is done after `n` ticks: the wait for a job ends without an error exactly if
    -- one of the first `n` looks shows a success and every look before it shows nothing, neither a
    -- success nor a failure.
    pub poll_job-success_iff :
        (n : ℕ) (s : E.State)
        → ((poll_job E j cause n s).0.1 ≡ none) ↔ (
            (k : ℕ) × (k < n)
            × ShowsSuccess (answer k s)
            × ((i : ℕ) → i < k → ShowsNothing (answer i s)))
    poll_job-success_iff n s = (poll_job-Wins n s, Wins-poll_job n s)

    quiet_until :
        (k : ℕ) (s : E.State)
        → ShowsNothing (answer 0 s)
        → ((i : ℕ) → suc i < k → ShowsNothing (answer i (look s).1))
        → (i : ℕ) → suc i < suc k
        → ShowsNothing (answer i s)
    unfolding after
    quiet_until k s first rest zero lt = first
    quiet_until k s first rest (suc i) lt = rest i (omega arith)

    -- The wait ends: where the context is done after `n` ticks, it looks at the job `k` times, at most
    -- `n`, and does nothing else. No look but the last shows a success or a failure, and where the wait
    -- ends early, the last look does.
    pub poll_job_looks :
        (n : ℕ) (s : E.State)
        → (k : ℕ) × (k ≤ n)
          × ((poll_job E j cause n s).1 ≡ after k s)
          × ((i : ℕ) → suc i < k → ShowsNothing (answer i s))
          × (k < n → (m : ℕ) × (k ≡ suc m) × ShowsEnd (answer m s))
    unfolding poll_job after
    poll_job_looks zero s =
        (0, omega arith, refl, λ i lt. absurd (omega arith), λ lt. absurd (omega arith))
    poll_job_looks (suc n) s =
        elim (sight (Dict.get (lit "snapshot-id") j.meta.labels) (look s).0) [
          | success won o e _ ↦ (
            1,
            omega arith,
            rw (e, poll_job) refl,
            λ i lt. absurd (omega arith),
            λ lt. (0, refl, inl won),
          )
          | broken lost o e _ ↦ (
            1,
            omega arith,
            rw (e, poll_job) refl,
            λ i lt. absurd (omega arith),
            λ lt. (0, refl, inr lost),
          )
          | nothing quiet e ↦
              let (k, le, same, before, ended) = poll_job_looks n (look s).1 in
              (
                suc k,
                omega arith,
                rw (e, poll_job) same,
                quiet_until k s quiet before,
                λ lt. let (m, last, shown) = ended (omega arith) in (suc m, ap suc last, shown),
              )
        ]

-- ===== src/Job/Executor/Success.antt =====
-- When running a job succeeds.
use etcd_snapshot_driver.Common.{
  ℕ, ◌<◌, true, none, some, ◌≡◌, inl, inr, refl, sym, ◌∙◌, ◌↔◌, ℤ, Reply, Reply-cases, Bool-cases,
  value, failure, deadline_exceeded, canceled, ctx,
}
use etcd_snapshot_driver.Env.{Env}
use etcd_snapshot_driver.Kube.{Job}
use etcd_snapshot_driver.Job.Executor.{
  Outcome, poll_job, wait_for_job_completion, finish, wait_and_finish, execute_snapshot_job,
}
use etcd_snapshot_driver.Job.Executor.Polling.{
  answer, ShowsSuccess, ShowsNothing, poll_job-success_iff,
}

module _ (E : Env) where
  -- Within the timeout, a look at the job shows a success, and every look before it shows neither a
  -- success nor a failure.
  abbrev pub SeenDone : Job E.Quantity → ℤ → E.State → Type 0
  SeenDone j timeout s =
      let ((n, cause), s') = E.ticks timeout s in
      (k : ℕ) × (k < n)
      × ShowsSuccess E j (answer E j k s')
      × ((i : ℕ) → i < k → ShowsNothing E j (answer E j i s'))

  -- The API has made the job `j'`, or it says that there is such a job already, which is then `j`.
  abbrev pub IsStarted : Job E.Quantity → Reply (Job E.Quantity) → Job E.Quantity → Type 0
  IsStarted j (value made) j' = j' ≡ made
  IsStarted j (failure e) j' = (e.is_already_exists ≡ true) × (j' ≡ j)

  finish_error :
      (j : Job E.Quantity) (start : ℕ) (o : Outcome) (s : E.State)
      → (finish E j start o s).0.1 ≡ o.1
  unfolding finish
  finish_error j start (r, none) s = refl
  finish_error j start (r, some (ctx deadline_exceeded)) s = refl
  finish_error j start (r, some (ctx canceled)) s = refl
  finish_error j start (r, some e) s = refl

  waited :
      (j : Job E.Quantity) (timeout : ℤ) (start : ℕ) (s : E.State)
      → ((wait_and_finish E j timeout start s).0.1 ≡ none) ↔ SeenDone j timeout s
  unfolding wait_and_finish wait_for_job_completion
  waited j timeout start s =
      let ((n, cause), s') = E.ticks timeout s in
      let (o, s'') = poll_job E j cause n s' in
      let (there, back) = poll_job-success_iff E j cause n s' in
      (λ h. there (sym (finish_error j start o s'') ∙ h), λ p. finish_error j start o s'' ∙ back p)

  -- Running a job succeeds exactly if the API makes the job or says that it exists already, and within
  -- the timeout a look at it shows a success and every look before that shows neither a success nor a
  -- failure.
  pub execute_snapshot_job-success_iff :
      (j : Job E.Quantity) (timeout : ℤ) (s : E.State)
      → ((execute_snapshot_job E j timeout s).0.1 ≡ none) ↔ (
          let (reply, s₂) = E.create_job j.meta.namespace j (E.now s).1 in
          (j' : Job E.Quantity) × IsStarted j reply j' × SeenDone j' timeout s₂)
  unfolding execute_snapshot_job
  execute_snapshot_job-success_iff j timeout s =
      let start = (E.now s).0 in
      let s₂ = (E.create_job j.meta.namespace j (E.now s).1).1 in
      elim (Reply-cases (E.create_job j.meta.namespace j (E.now s).1).0) [
        | inl (made, e) ↦
            rw (e, execute_snapshot_job)
              (
                λ h. (made, refl, (waited made timeout start s₂).0 h),
                λ (j', same, done). (waited made timeout start s₂).1 (rw same at done),
              )
        | inr (x, e) ↦ elim (Bool-cases x.is_already_exists) [
          | inl there ↦
              rw (e, execute_snapshot_job, there)
                (
                  λ h. (j, (refl, refl), (waited j timeout start s₂).0 h),
                  λ (j', (_, same), done). (waited j timeout start s₂).1 (rw same at done),
                )
          | inr not_there ↦
              rw (e, execute_snapshot_job, not_there) (λ h. cc, λ (j', (there, _), _). cc)
        ]
      ]

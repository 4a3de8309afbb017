-- ===== src/Job/Executor/Frame.antt =====
-- What running a job leaves as it was.
use etcd_snapshot_driver.Common.{
  ℕ, zero, suc, Str, lit, none, some, List, [], ◌∷◌, ℤ, Reply, Reply-cases, value, failure, CtxErr,
  deadline_exceeded, canceled, ctx, inl, inr, Option-cases, arith,
}
use etcd_snapshot_driver.Common.Dict
use etcd_snapshot_driver.Env.{Env}
use etcd_snapshot_driver.Env.Frame.{ReadsKeep}
use etcd_snapshot_driver.Kube.{Job, Pod}
use etcd_snapshot_driver.Job.Executor.{
  Outcome, judge_reply, poll_job, wait_for_job_completion, logs_of, get_job_logs, finish,
  wait_and_finish, execute_snapshot_job,
}

module _ (E : Env) (P : E.State → Type 0) (K : ReadsKeep E P) where
  poll_job-keeps :
      (j : Job E.Quantity) (cause : CtxErr) (n : ℕ) (s : E.State)
      → P s
      → P (poll_job E j cause n s).1
  unfolding poll_job
  poll_job-keeps j cause zero s p = p
  poll_job-keeps j cause (suc n) s p =
      let p' = K.get_job j.meta.namespace j.meta.name s p in
      elim (Option-cases (
        judge_reply (Dict.get (lit "snapshot-id") j.meta.labels)
          (E.get_job j.meta.namespace j.meta.name s).0)) [
            | inl more ↦ rw (more, poll_job) (poll_job-keeps j cause n _ p')
            | inr (o, e) ↦ rw (e, poll_job) p'
          ]

  logs_of-keeps :
      (j : Job E.Quantity) (r : Reply (List Pod)) (s : E.State) → P s → P (logs_of E j r s).1
  unfolding logs_of
  logs_of-keeps j (failure e) s p = p
  logs_of-keeps j (value []) s p = p
  logs_of-keeps j (value (pod ∷ _)) s p = ground (arith, K.pod_logs j.meta.namespace pod.name s p)

  get_job_logs-keeps : (j : Job E.Quantity) (s : E.State) → P s → P (get_job_logs E j s).1
  unfolding get_job_logs
  get_job_logs-keeps j s p = logs_of-keeps j _ _ (K.list_pods j.meta.namespace _ s p)

  finish-keeps :
      (j : Job E.Quantity) (start : ℕ) (o : Outcome) (s : E.State)
      → P s
      → P (finish E j start o s).1
  unfolding finish
  finish-keeps j start (r, none) s p = K.now s p
  finish-keeps j start (r, some (ctx deadline_exceeded)) s p = K.now s p
  finish-keeps j start (r, some (ctx canceled)) s p = get_job_logs-keeps j _ (K.now s p)
  finish-keeps j start (r, some _) s p = get_job_logs-keeps j _ (K.now s p)

  wait_and_finish-keeps :
      (j : Job E.Quantity) (timeout : ℤ) (start : ℕ) (s : E.State)
      → P s
      → P (wait_and_finish E j timeout start s).1
  unfolding wait_and_finish
  wait_and_finish-keeps j timeout start s p =
      let (o, s') = wait_for_job_completion E j timeout s in
      finish-keeps j start o s' (poll_job-keeps j _ _ _ (K.ticks timeout s p))

  -- Running a job keeps what the reading calls and the creation of a job keep.
  pub execute_snapshot_job-keeps :
      (j : Job E.Quantity) (timeout : ℤ) (s : E.State)
      → ((ns : Str) (j : Job E.Quantity) (s : E.State) → P s → P (E.create_job ns j s).1)
      → P s
      → P (execute_snapshot_job E j timeout s).1
  unfolding execute_snapshot_job
  execute_snapshot_job-keeps j timeout s creates p =
      let start = (E.now s).0 in
      let created = creates j.meta.namespace j (E.now s).1 (K.now s p) in
      elim (Reply-cases (E.create_job j.meta.namespace j (E.now s).1).0) [
        | inl (j', e) ↦
            rw (e, execute_snapshot_job) (wait_and_finish-keeps j' timeout start _ created)
        | inr (x, e) ↦
            rw (e, execute_snapshot_job)
              (ground (arith, created, wait_and_finish-keeps j timeout start _ created))
      ]

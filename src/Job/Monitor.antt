-- ===== src/Job/Monitor.antt =====
-- `Monitor` (internal/job/monitor.go): one reading of a job's status, retried while the API fails.
pub mod Answering
use etcd_snapshot_driver.Common.{
  ℕ, zero, suc, Str, lit, Bool, true, false, ◌&&◌, ℤ, pos, is_positive, if◌then◌else◌, value,
  failure, CtxErr, ctx, Act, pure, throw, panics,
}
use etcd_snapshot_driver.Env.{Env}
use etcd_snapshot_driver.Kube.{Job, Counts}

pub record JobStatus : Type 0 where
  pub name : Str
  pub namespace : Str
  pub succeeded : Bool
  pub failed : Bool
  pub active : Bool
  pub message : Str

-- `n == 0`
abbrev is_zero : ℤ → Bool
is_zero (pos zero) = true
is_zero _ = false

unfoldable pub status_message : Counts → Str
status_message c =
    if is_positive c.succeeded
    then lit "Job completed successfully"
    else if is_positive c.failed
    then lit "Job failed"
    else if is_zero c.active && (is_zero c.succeeded && is_zero c.failed)
    then lit "Job is pending"
    else lit "Job is running"

unfoldable pub job_status : {Q : Type 0} → Job Q → JobStatus
unfolding status_message
job_status j = record {
  name = j.meta.name;
  namespace = j.meta.namespace;
  succeeded = is_positive j.counts.succeeded;
  failed = is_positive j.counts.failed;
  active = is_positive j.counts.active;
  message = status_message j.counts;
}

module _ (E : Env) (namespace job_name : Str) (cause : CtxErr) where
  -- The loop; `n` is the number of ticks taken before the context is done.
  unfoldable pub poll_status : ℕ → Act E.State JobStatus
  unfolding job_status
  poll_status zero s = throw (ctx cause) s
  poll_status (suc n) s =
      let (reply, s') = E.get_job namespace job_name s in
      elim reply [ value j ↦ pure (job_status j) s' | failure _ ↦ poll_status n s' ]

  -- `PollJobStatus`. `time.NewTicker` panics if the interval is not positive.
  unfoldable pub poll_job_status : ℤ → ℕ → Act E.State JobStatus
  unfolding poll_status
  poll_job_status interval n s =
      if is_positive interval
      then poll_status n s
      else panics (lit "non-positive interval for NewTicker") s

-- ===== src/Job/Executor.antt =====
-- `Executor` (internal/job/executor.go): creates a job and waits until it ends.
pub mod Polling
pub mod Frame
pub mod Success
use etcd_snapshot_driver.Common.{
  ℕ, zero, suc, ◌-◌, Str, lit, take, Bool, true, false, Option, none, some, List, [], ◌∷◌, ◌++◌, ℤ,
  pos, is_positive, if◌then◌else◌, LibError, Reply, value, failure, CtxErr, deadline_exceeded,
  canceled, Error, errorf, lib, ctx, error_text,
}
use etcd_snapshot_driver.Common.Decimal.{itoa_ℤ}
use etcd_snapshot_driver.Common.Dict
use etcd_snapshot_driver.Env.{Env}
use etcd_snapshot_driver.Kube.{Job, Counts, Pod}

pub record JobResult : Type 0 where
  pub success : Bool
  pub snapshot_id : Str
  pub snapshot_size : ℤ
  pub duration : ℕ  -- nanoseconds
  pub error_message : Str

-- A Go pair `(*JobResult, error)`.
abbrev pub Outcome : Type 0
Outcome = JobResult × Option Error

abbrev pub succeeded_outcome : Str → Outcome
succeeded_outcome id = (
  record {
    success = true;
    snapshot_id = id;
    snapshot_size = pos 0;
    duration = 0;
    error_message = [];
  },
  none,
)

abbrev pub failed_outcome : Str → Str → Error → Outcome
failed_outcome id message e = (
  record {
    success = false;
    snapshot_id = id;
    snapshot_size = pos 0;
    duration = 0;
    error_message = message;
  },
  some e,
)

-- `job failed after %d attempts`, as the message and as the error
abbrev pub job_failed : Str → Counts → Outcome
job_failed id c =
    let message : Str = lit "job failed after " ++ (itoa_ℤ c.failed ++ lit " attempts") in
    failed_outcome id message (errorf message)

-- What one look at a job's status says; `none` is "still running".
unfoldable pub judge : Str → Counts → Option Outcome
judge id c =
    if is_positive c.succeeded
    then some (succeeded_outcome id)
    else if is_positive c.failed
    then some (job_failed id c)
    else none

abbrev pub timed_out : Str → CtxErr → Outcome
timed_out id cause = failed_outcome id (lit "job execution timeout") (ctx cause)

-- What one answer of the API says: an error is logged, and the loop goes on.
abbrev pub judge_reply : {Q : Type 0} → Str → Reply (Job Q) → Option Outcome
judge_reply id (value j) = judge id j.counts
judge_reply id (failure _) = none

module _ (E : Env) where
  -- The loop. `n` is the number of ticks taken before the context is done, and `cause` is what
  -- `ctx.Err()` then says; the deadline of the context bounds both.
  unfoldable pub poll_job : Job E.Quantity → CtxErr → ℕ → E.State → Outcome × E.State
  poll_job j cause zero s = (timed_out (Dict.get (lit "snapshot-id") j.meta.labels) cause, s)
  poll_job j cause (suc n) s =
      let (reply, s') = E.get_job j.meta.namespace j.meta.name s in
      elim (judge_reply (Dict.get (lit "snapshot-id") j.meta.labels) reply) [
        | some outcome ↦ (outcome, s')
        | none ↦ poll_job j cause n s'
      ]

  -- `waitForJobCompletion`, under a context with that timeout
  unfoldable pub wait_for_job_completion : Job E.Quantity → ℤ → E.State → Outcome × E.State
  unfolding poll_job
  wait_for_job_completion j timeout s =
      let ((n, cause), s') = E.ticks timeout s in poll_job j cause n s'

  -- The first pod's logs, at most 4096 bytes of them.
  logs_of : Job E.Quantity → Reply (List Pod) → E.State → (Str × Option Error) × E.State
  logs_of j (failure e) s = (([], some (lib e)), s)
  logs_of j (value []) s = (([], none), s)
  logs_of j (value (pod ∷ _)) s = elim pod.containers [
    | [] ↦ (([], some (errorf (lit "pod has no containers"))), s)
    | _ ∷ _ ↦
        let (reply, s') = E.pod_logs j.meta.namespace pod.name s in
        elim reply [
          | failure e ↦ (([], some (lib e)), s')
          | value text ↦ ((take 4096 text, none), s')
        ]
  ]

  unfoldable pub get_job_logs : Job E.Quantity → E.State → (Str × Option Error) × E.State
  unfolding logs_of
  get_job_logs j s =
      let (reply, s') = E.list_pods j.meta.namespace (lit "job-name=" ++ j.meta.name) s in
      logs_of j reply s'

  -- What follows the wait: the duration, and logs after a failure that is no timeout.
  finish : Job E.Quantity → ℕ → Outcome → E.State → Outcome × E.State
  finish j start (result, none) s =
      let (t, s') = E.now s in ((record result { duration = t - start }, none), s')
  finish j start (result, some (ctx deadline_exceeded)) s =
      let (t, s') = E.now s in
      ((record result { duration = t - start }, some (ctx deadline_exceeded)), s')
  finish j start (result, some e) s =
      let (t, s') = E.now s in
      ((record result { duration = t - start }, some e), (get_job_logs j s').1)

  wait_and_finish : Job E.Quantity → ℤ → ℕ → E.State → Outcome × E.State
  unfolding wait_for_job_completion finish
  wait_and_finish j timeout start s =
      let (outcome, s') = wait_for_job_completion j timeout s in finish j start outcome s'

  unfoldable pub execute_snapshot_job : Job E.Quantity → ℤ → E.State → Outcome × E.State
  unfolding wait_and_finish
  execute_snapshot_job j timeout s =
      let (start, s₁) = E.now s in
      let (reply, s₂) = E.create_job j.meta.namespace j s₁ in
      elim reply [
        | value created ↦ wait_and_finish created timeout start s₂
        | failure e ↦
            let give_up =
              failed_outcome (Dict.get (lit "snapshot-id") j.meta.labels)
                (lit "failed to create job: " ++ e.text) (lib e) in
            if e.is_already_exists then wait_and_finish j timeout start s₂ else (give_up, s₂)
      ]

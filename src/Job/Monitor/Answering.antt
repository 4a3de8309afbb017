-- ===== src/Job/Monitor/Answering.antt =====
-- Which look the monitor answers with.
use etcd_snapshot_driver.Common.{
  is_value, lit, Bool, sym, subst, ap, ◌∙◌, pos, ℕ, zero, suc, ◌<◌, Str, true, false, ◌≡◌, ◌↔◌,
  refl, inl, inr, ℤ, is_positive, LibError, Reply, Reply-cases, value, failure, CtxErr, ok, arith,
}
use etcd_snapshot_driver.Env.{Env}
use etcd_snapshot_driver.Kube.{Counts, Job}
use etcd_snapshot_driver.Job.Monitor.{
  JobStatus, status_message, job_status, poll_status, poll_job_status,
}

-- No pod has been counted.
abbrev pub all_zero : ℤ → ℤ → ℤ → Bool
all_zero (pos zero) (pos zero) (pos zero) = true
all_zero _ _ _ = false

-- What the monitor says of a job: a success counts first, then a failure, and a job that has neither
-- waits for its first pod or runs.
abbrev pub summary : Bool → Bool → Bool → Str
summary true failed waiting = lit "Job completed successfully"
summary false true waiting = lit "Job failed"
summary false false true = lit "Job is pending"
summary false false false = lit "Job is running"

-- The status tells of this job.
abbrev pub Tells : {Q : Type 0} → Job Q → JobStatus → Type 0
Tells j st =
    let c = j.counts in
    (st.name ≡ j.meta.name)
    × (st.namespace ≡ j.meta.namespace)
    × (st.succeeded ≡ is_positive c.succeeded)
    × (st.failed ≡ is_positive c.failed)
    × (st.active ≡ is_positive c.active)
    × (st.message
        ≡ summary (is_positive c.succeeded) (is_positive c.failed)
            (all_zero c.active c.succeeded c.failed))

message-summary :
    (c : Counts)
    → status_message c
      ≡ summary
          (is_positive c.succeeded)
          (is_positive c.failed)
          (all_zero c.active c.succeeded c.failed)
unfolding status_message
message-summary c = ground arith

status-Tells : {Q : Type 0} (j : Job Q) → Tells j (job_status j)
unfolding job_status
status-Tells j = (refl, refl, refl, refl, refl, message-summary j.counts)

Tells-unique : {Q : Type 0} (j : Job Q) (st : JobStatus) → Tells j st → job_status j ≡ st
unfolding job_status
Tells-unique j st (name, namespace, succeeded, failed, active, message) i = record {
  name = sym name i;
  namespace = sym namespace i;
  succeeded = sym succeeded i;
  failed = sym failed i;
  active = sym active i;
  message = (message-summary j.counts ∙ sym message) i;
}

module _ (E : Env) (namespace job_name : Str) (cause : CtxErr) where
  abbrev seen : E.State → Reply (Job E.Quantity) × E.State
  seen = E.get_job namespace job_name

  -- The answer of a look, after `k` others.
  unfoldable pub look_at : ℕ → E.State → Reply (Job E.Quantity)
  look_at zero s = (seen s).0
  look_at (suc k) s = look_at k (seen s).1

  -- The first of the first `n` looks that is answered shows a job, and the status tells of it.
  abbrev pub AnswersFirst : ℕ → E.State → JobStatus → Type 0
  AnswersFirst n s st =
      (k : ℕ) × (k < n)
      × ((j : Job E.Quantity) × (look_at k s ≡ value j) × Tells j st)
      × ((i : ℕ) → i < k → is_value (look_at i s) ≡ false)

  not_value : {A : Type 0} {x : LibError} {a : A} → failure x ≡ value a → ⊥
  not_value h = cc

  unanswered :
      (k : ℕ) (s : E.State) {x : LibError}
      → (seen s).0 ≡ failure x
      → ((i : ℕ) → i < k → is_value (look_at i (seen s).1) ≡ false)
      → (i : ℕ) → i < suc k
      → is_value (look_at i s) ≡ false
  unfolding look_at
  unanswered k s e rest zero lt = rw e refl
  unanswered k s e rest (suc i) lt = rest i (omega arith)

  poll_status_sound :
      (n : ℕ) (s : E.State) {st : JobStatus}
      → (poll_status E namespace job_name cause n s).0 ≡ ok st
      → AnswersFirst n s st
  unfolding poll_status look_at
  poll_status_sound zero s h = cc
  poll_status_sound (suc n) s {st} h = elim (Reply-cases (seen s).0) [
    | inl (j, e) ↦
        let same : job_status j ≡ st = cc (rw (e, poll_status) at h) in
        (
          0,
          omega arith,
          (j, e, subst (Tells j) same (status-Tells j)),
          λ i lt. absurd (omega arith),
        )
    | inr (x, e) ↦
        let (k, lt, found, before) = poll_status_sound n (seen s).1 (rw (e, poll_status) at h) in
        (suc k, omega arith, found, unanswered k s e before)
  ]

  poll_status_complete :
      (n : ℕ) (s : E.State) {st : JobStatus}
      → AnswersFirst n s st
      → (poll_status E namespace job_name cause n s).0 ≡ ok st
  unfolding poll_status look_at
  poll_status_complete zero s (k, lt, _, _) = absurd (omega arith)
  poll_status_complete (suc n) s {st} (zero, lt, (j, e, told), before) =
      rw (e, poll_status) (ap ok (Tells-unique j st told))
  poll_status_complete (suc n) s (suc k, lt, found, before) = elim (Reply-cases (seen s).0) [
    | inl (j, e) ↦ absurd (answered e (before 0 (omega arith)))
    | inr (x, e) ↦
        rw (e, poll_status)
          (poll_status_complete n (seen s).1
            (k, omega arith, found, λ i lt'. before (suc i) (omega arith)))
  ]
    where
      answered : {j : Job E.Quantity} → (seen s).0 ≡ value j → is_value (seen s).0 ≡ false → ⊥
      answered e h = cc (rw e at h)

  -- Where the interval is positive and the context is done after `n` ticks: the monitor answers with a
  -- status exactly if it tells of the job of the first look that the API answers, and this look is among
  -- the first `n`: the status has the job's name and namespace, says for each kind of pod whether there
  -- is one, and its message is of a success where there is one, else of a failure where there is one,
  -- else that the job is pending where no pod is counted, or running.
  pub poll_job_status_iff :
      (interval : ℤ) (n : ℕ) (s : E.State) (st : JobStatus)
      → is_positive interval ≡ true
      → ((poll_job_status E namespace job_name cause interval n s).0 ≡ ok st) ↔ AnswersFirst n s st
  unfolding poll_job_status
  poll_job_status_iff interval n s st positive =
      rw positive (poll_status_sound n s, poll_status_complete n s)

-- ===== src/Domain/State/Laws.antt =====
-- What the transition tables of packages/domain/src/state.ts guarantee.
use scribe_drop.Common.{
  ℕ, suc, ◌+◌, ◌*◌, ◌<◌, ◌≤◌, ◌≡◌, refl, Bool, true, false, not, ◌&&◌, ◌||◌, List, [], ◌∷◌, ◌⊎◌,
  arith,
}
use scribe_drop.Domain.State.{
  JobStatus, AttemptStatus, job_status_transitions, attempt_status_transitions,
  can_transition_job_status, can_transition_attempt_status, is_terminal_job_status,
  is_terminal_attempt_status, is_active_job_status, can_retry_job,
}

abbrev pub is_empty {ℓ} : {A : Type ℓ} → List A → Bool
is_empty [] = true
is_empty (_ ∷ _) = false

is_terminal_job-is_empty :
    (s : JobStatus) → is_terminal_job_status s ≡ is_empty (job_status_transitions s)
unfolding is_terminal_job_status job_status_transitions
is_terminal_job-is_empty JobStatus.created = refl
is_terminal_job-is_empty _ = refl

is_terminal_attempt-is_empty :
    (s : AttemptStatus) → is_terminal_attempt_status s ≡ is_empty (attempt_status_transitions s)
unfolding is_terminal_attempt_status attempt_status_transitions
is_terminal_attempt-is_empty AttemptStatus.failed = refl
is_terminal_attempt-is_empty _ = refl

-- The sets of final job and attempt statuses, kept apart from the tables, are the sets of the statuses
-- that the tables give no way out of.
pub is_terminal-is_empty :
    (s : JobStatus) (t : AttemptStatus)
    → (is_terminal_job_status s ≡ is_empty (job_status_transitions s))
      × (is_terminal_attempt_status t ≡ is_empty (attempt_status_transitions t))
is_terminal-is_empty s t = (is_terminal_job-is_empty s, is_terminal_attempt-is_empty t)

-- Every job status is exactly one of active, final and open to a retry.
pub active_final_retry :
    (s : JobStatus)
    → (is_active_job_status s ≡ not (is_terminal_job_status s || can_retry_job s))
      × ((is_terminal_job_status s && can_retry_job s) ≡ false)
unfolding is_active_job_status is_terminal_job_status can_retry_job
active_final_retry JobStatus.created = (refl, refl)
active_final_retry _ = (refl, refl)

abbrev pub job_of_attempt : AttemptStatus → JobStatus
job_of_attempt AttemptStatus.submission_pending = JobStatus.submission_pending
job_of_attempt AttemptStatus.submitting = JobStatus.submitting
job_of_attempt AttemptStatus.running = JobStatus.running
job_of_attempt AttemptStatus.cancel_requested = JobStatus.cancel_requested
job_of_attempt AttemptStatus.completed = JobStatus.completed
job_of_attempt AttemptStatus.failed = JobStatus.failed
job_of_attempt AttemptStatus.cancelled = JobStatus.cancelled

-- Between statuses that a job and an attempt share, both tables allow the same transitions, but for
-- the job's retry out of its failure.
pub can_transition-job_of_attempt :
    (s t : AttemptStatus)
    → can_transition_attempt_status s t ≡ (
        can_transition_job_status (job_of_attempt s) (job_of_attempt t)
        && not (can_retry_job (job_of_attempt s)))
unfolding can_transition_attempt_status can_transition_job_status can_retry_job
can_transition-job_of_attempt AttemptStatus.failed AttemptStatus.failed = refl
can_transition-job_of_attempt _ AttemptStatus.failed = refl
can_transition-job_of_attempt _ _ = refl

-- How far a job has come.
abbrev pub stage : JobStatus → ℕ
stage JobStatus.created = 0
stage JobStatus.uploading = 1
stage JobStatus.uploaded = 2
stage JobStatus.submission_pending = 3
stage JobStatus.submitting = 4
stage JobStatus.running = 5
stage JobStatus.cancel_requested = 6
stage _ = 7

stage-lt :
    (s t : JobStatus)
    → can_transition_job_status s t ≡ true
    → (can_retry_job s ≡ true) ⊎ (stage s < stage t)
unfolding can_transition_job_status can_retry_job
stage-lt JobStatus.created JobStatus.created h = ground arith
stage-lt _ JobStatus.created h = ground arith
stage-lt _ _ h = ground arith

-- A life of a job, newest status first, with the retries in it counted.
pub data Life : JobStatus → ℕ → ℕ → Type 0 where
  begin : Life JobStatus.created 0 0
  advance :
      {s : JobStatus} {steps retries : ℕ} (t : JobStatus)
      → Life s steps retries
      → can_transition_job_status s t ≡ true
      → can_retry_job s ≡ false
      → Life t (suc steps) retries
  retry :
      {s : JobStatus} {steps retries : ℕ} (t : JobStatus)
      → Life s steps retries
      → can_transition_job_status s t ≡ true
      → can_retry_job s ≡ true
      → Life t (suc steps) (suc retries)

stage-le : (s : JobStatus) → stage s ≤ 7
stage-le JobStatus.created = omega arith
stage-le _ = omega arith

retry_stage :
    (s t : JobStatus) → can_transition_job_status s t ≡ true → can_retry_job s ≡ true → stage t ≡ 3
unfolding can_transition_job_status can_retry_job
retry_stage JobStatus.failed JobStatus.created h r = ground arith
retry_stage _ JobStatus.created h r = ground arith
retry_stage _ _ h r = ground arith

steps-le-stage : {s : JobStatus} {n r : ℕ} → Life s n r → n ≤ stage s + 5 * r
steps-le-stage begin = omega arith
steps-le-stage (advance {s} t l h k) = ground (arith, stage-lt s t, steps-le-stage l)
steps-le-stage (retry {s} t l h k) =
    omega (arith, retry_stage s t h k, steps-le-stage l, stage-le s)

-- A job takes at most seven steps on its first try and at most five more on each retry, so the table
-- has no cycle but through a retry.
pub Life-bounded : (s : JobStatus) (n r : ℕ) → Life s n r → n ≤ 7 + 5 * r
Life-bounded s n r l = omega (arith, steps-le-stage l, stage-le s)

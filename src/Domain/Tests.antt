-- ===== src/Domain/Tests.antt =====
-- The rules of packages/domain/src on concrete values.
use scribe_drop.Common.{
  ℕ, ◌<◌, ◌+◌, ◌*◌, ◌≤◌, ◌≡◌, ◌≢◌, ◌⊎◌, refl, true, false, not, ◌&&◌, ◌||◌, List, [], ◌∷◌, ◌++◌,
  none, some, natural, length, All, arith,
}
use Prim.Native.Nat.{max}
use scribe_drop.Domain.State.{
  JobStatus, AttemptStatus, can_transition_job_status, can_transition_attempt_status,
  is_terminal_job_status, is_terminal_attempt_status, is_active_job_status, can_retry_job,
  job_status_transitions, attempt_status_transitions,
}
use scribe_drop.Domain.State.Laws.{
  is_empty, Life, begin, advance, retry, Life-bounded, can_transition-job_of_attempt,
  is_terminal-is_empty, active_final_retry,
}
use scribe_drop.Domain.GpuExecution.{
  GpuExecutionStatus, GpuCleanupStatus, GpuProviderErrorKind, can_transition_gpu_execution_status,
  can_transition_gpu_cleanup_status, get_gpu_provider_error_descriptor,
}
use scribe_drop.Domain.GpuExecution.Laws.{Run, start, move, execution_runs_end, cleanup_order}
use scribe_drop.Domain.Retention
use scribe_drop.Domain.Retention.{deletion_not_before}
use scribe_drop.Domain.Retention.Laws.{deletion_waits, deletion_exact, deletion_given}
use scribe_drop.Domain.Ulid.{
  returns, join, encode_loop, too_long, encode_base32, create_ulid, fold_bytes,
}
use scribe_drop.Domain.Ulid.Laws.{
  decode, bytes_of, IsDigit, decode-encode_base32, encode_base32_overflow, decode-create_ulid,
}
use scribe_drop.Domain.Ulid.Order.{Before, create_ulid-Before}

is_terminal-is_empty_example :
    (is_terminal_job_status JobStatus.completed
      ≡ is_empty (job_status_transitions JobStatus.completed))
    × (is_terminal_attempt_status AttemptStatus.running
        ≡ is_empty (attempt_status_transitions AttemptStatus.running))
is_terminal-is_empty_example = is_terminal-is_empty JobStatus.completed AttemptStatus.running

active_final_retry_example :
    (is_active_job_status JobStatus.failed
      ≡ not (is_terminal_job_status JobStatus.failed || can_retry_job JobStatus.failed))
    × ((is_terminal_job_status JobStatus.failed && can_retry_job JobStatus.failed) ≡ false)
active_final_retry_example = active_final_retry JobStatus.failed

can_transition-job_of_attempt_example :
    can_transition_attempt_status AttemptStatus.running AttemptStatus.completed ≡ (
      can_transition_job_status JobStatus.running JobStatus.completed
      && not (can_retry_job JobStatus.running))
can_transition-job_of_attempt_example =
    can_transition-job_of_attempt AttemptStatus.running AttemptStatus.completed

-- A job whose upload fails once and which is then submitted again.
retried : Life JobStatus.submission_pending 3 1
unfolding can_transition_job_status can_retry_job
retried =
    retry JobStatus.submission_pending
      (advance JobStatus.failed (advance JobStatus.uploading begin refl refl) refl refl) refl refl

Life-bounded_example : 3 ≤ 7 + 5 * 1
Life-bounded_example = Life-bounded JobStatus.submission_pending 3 1 retried

cancelled-Run : Run GpuExecutionStatus.pending GpuExecutionStatus.terminal 2
unfolding can_transition_gpu_execution_status
cancelled-Run =
    move GpuExecutionStatus.terminal (move GpuExecutionStatus.cancel_requested start refl) refl

execution_runs_end_example :
    (2 ≤ 4)
    × ((GpuExecutionStatus.pending ≡ GpuExecutionStatus.terminal)
        ⊎ (can_transition_gpu_execution_status GpuExecutionStatus.pending
              GpuExecutionStatus.terminal
            ≡ true))
execution_runs_end_example =
    execution_runs_end GpuExecutionStatus.pending GpuExecutionStatus.terminal 2 cancelled-Run

may_succeed :
    can_transition_gpu_cleanup_status GpuCleanupStatus.in_progress GpuCleanupStatus.succeeded ≡ true
unfolding can_transition_gpu_cleanup_status
may_succeed = refl

cleanup_order_example :
    (GpuCleanupStatus.in_progress ≢ GpuCleanupStatus.succeeded)
    × (GpuCleanupStatus.succeeded ≢ GpuCleanupStatus.not_requested)
    × ((GpuCleanupStatus.succeeded ≢ GpuCleanupStatus.succeeded)
        ⊎ (GpuCleanupStatus.in_progress ≡ GpuCleanupStatus.in_progress))
    × ((GpuCleanupStatus.succeeded ≢ GpuCleanupStatus.in_progress)
        ⊎ (GpuCleanupStatus.in_progress ≡ GpuCleanupStatus.pending))
cleanup_order_example =
    cleanup_order GpuCleanupStatus.in_progress GpuCleanupStatus.succeeded may_succeed

may_retry : (get_gpu_provider_error_descriptor GpuProviderErrorKind.retryable).retryable ≡ true
unfolding get_gpu_provider_error_descriptor
may_retry = refl

abbrev deletion_time : ℕ
deletion_time = 7502000

deletes_later :
    deletion_not_before (natural 1000) (some (natural 2000)) ≡ Retention.returns deletion_time
unfolding deletion_not_before
deletes_later = refl

deletion_waits_example :
    (1000 ≤ deletion_time)
    × (2000 + 7500000 ≤ deletion_time + 1)
    × ((deletion_time ≡ 1000) ⊎ (deletion_time ≤ 2000 + 7500001))
deletion_waits_example = deletion_waits 1000 2000 deletion_time deletes_later

deletion_exact_example : deletion_time ≡ max 1000 (2000 + 7500000)
deletion_exact_example = deletion_exact 1000 2000 deletion_time (omega arith) deletes_later

deletion_given_example :
    (deletion_not_before (natural 1000) none ≡ Retention.returns 1000)
    × ((t : ℕ) × (deletion_not_before (natural 1000) (some (natural 2000)) ≡ Retention.returns t))
deletion_given_example = deletion_given 1000 2000 refl refl

decode-encode_base32_example :
    (ds : List ℕ) × (encode_base32 1023 2 ≡ returns ds)
    × (length ds ≡ 2)
    × (decode 0 ds ≡ 1023)
    × All IsDigit ds
decode-encode_base32_example = decode-encode_base32 2 1023 (omega arith)

encode_base32_overflow_example : encode_base32 1024 2 ≡ too_long
encode_base32_overflow_example = encode_base32_overflow 2 1024 (omega arith)

ten_bytes : ℕ → List ℕ
ten_bytes _ = 0 ∷ 1 ∷ 2 ∷ 3 ∷ 4 ∷ 5 ∷ 6 ∷ 7 ∷ 8 ∷ 255 ∷ []

ten_bytes_small : All (λ b. b < 256) (ten_bytes 10)
unfolding ten_bytes
ten_bytes_small = ground arith

decode-create_ulid_example :
    (time random : List ℕ) × (create_ulid (natural 1700000000000) ten_bytes
      ≡ returns (time ++ random))
    × (length time ≡ 10)
    × (length random ≡ 16)
    × (decode 0 time ≡ 1700000000000)
    × (bytes_of 10 (decode 0 random) [] ≡ ten_bytes 10)
    × All IsDigit time
unfolding ten_bytes
decode-create_ulid_example =
    decode-create_ulid 1700000000000 ten_bytes (omega arith) refl ten_bytes_small

text_at : ℕ → List ℕ
unfolding ten_bytes create_ulid
text_at t = elim (create_ulid (natural t) ten_bytes) [ returns ds ↦ ds | _ ↦ [] ]

text_at_1 : create_ulid (natural 1) ten_bytes ≡ returns (text_at 1)
unfolding text_at ten_bytes create_ulid join encode_base32 encode_loop fold_bytes
text_at_1 = refl

text_at_2 : create_ulid (natural 2) ten_bytes ≡ returns (text_at 2)
unfolding text_at ten_bytes create_ulid join encode_base32 encode_loop fold_bytes
text_at_2 = refl

create_ulid-Before_example : Before (text_at 1) (text_at 2)
unfolding ten_bytes
create_ulid-Before_example =
    create_ulid-Before 1 2 ten_bytes ten_bytes (text_at 1) (text_at 2) (omega arith) (omega arith)
      refl refl ten_bytes_small ten_bytes_small text_at_1 text_at_2

-- ===== src/Domain/GpuExecution/Laws.antt =====
-- What the tables of packages/domain/src/gpu-execution.ts guarantee.
use scribe_drop.Common.{ℕ, suc, ◌+◌, ◌<◌, ◌≤◌, ◌≡◌, true, ◌⊎◌, ◌≢◌, arith}
use scribe_drop.Domain.GpuExecution.{
  GpuExecutionStatus, GpuCleanupStatus, can_transition_gpu_execution_status,
  can_transition_gpu_cleanup_status,
}

-- A path through the table of executions, with its length.
pub data Run (s : GpuExecutionStatus) : GpuExecutionStatus → ℕ → Type 0 where
  start : Run s s 0
  move :
      {t : GpuExecutionStatus} {n : ℕ} (u : GpuExecutionStatus)
      → Run s t n
      → can_transition_gpu_execution_status t u ≡ true
      → Run s u (suc n)

abbrev stage : GpuExecutionStatus → ℕ
stage GpuExecutionStatus.pending = 0
stage GpuExecutionStatus.creating = 1
stage GpuExecutionStatus.running = 2
stage GpuExecutionStatus.cancel_requested = 3
stage GpuExecutionStatus.terminal = 4

stage-lt :
    (s t : GpuExecutionStatus) → can_transition_gpu_execution_status s t ≡ true → stage s < stage t
unfolding can_transition_gpu_execution_status
stage-lt GpuExecutionStatus.pending GpuExecutionStatus.pending h = ground arith
stage-lt _ GpuExecutionStatus.pending h = ground arith
stage-lt _ _ h = ground arith

stage-le : (s : GpuExecutionStatus) → stage s ≤ 4
stage-le GpuExecutionStatus.pending = omega arith
stage-le _ = omega arith

Run-stage : {s t : GpuExecutionStatus} {n : ℕ} → Run s t n → stage s + n ≤ stage t
Run-stage start = omega arith
Run-stage (move {t} u r h) = omega (arith, Run-stage r, stage-lt t u h)

-- An execution changes its status at most four times, so it never comes back to one, and every status
-- but the final one can still be ended at once.
pub execution_runs_end :
    (s t : GpuExecutionStatus) (n : ℕ)
    → Run s t n
    → (n ≤ 4)
      × ((s ≡ GpuExecutionStatus.terminal)
          ⊎ (can_transition_gpu_execution_status s GpuExecutionStatus.terminal ≡ true))
unfolding can_transition_gpu_execution_status
execution_runs_end GpuExecutionStatus.pending t n r = ground (arith, Run-stage r, stage-le t)
execution_runs_end _ t n r = ground (arith, Run-stage r, stage-le t)

-- Wherever the cleanup table allows a step: it does not leave success, it does not come back to no
-- request, a step to success leaves work in progress, and a step to work in progress leaves a pending
-- request.
pub cleanup_order :
    (s t : GpuCleanupStatus)
    → can_transition_gpu_cleanup_status s t ≡ true
    → (s ≢ GpuCleanupStatus.succeeded)
      × (t ≢ GpuCleanupStatus.not_requested)
      × ((t ≢ GpuCleanupStatus.succeeded) ⊎ (s ≡ GpuCleanupStatus.in_progress))
      × ((t ≢ GpuCleanupStatus.in_progress) ⊎ (s ≡ GpuCleanupStatus.pending))
unfolding can_transition_gpu_cleanup_status
cleanup_order GpuCleanupStatus.failed GpuCleanupStatus.failed h = ground arith
cleanup_order _ GpuCleanupStatus.failed h = ground arith
cleanup_order _ _ h = ground arith

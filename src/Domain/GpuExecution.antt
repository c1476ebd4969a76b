-- ===== src/Domain/GpuExecution.antt =====
-- packages/domain/src/gpu-execution.ts: the life cycles of an execution on a GPU provider and of its
-- cleanup, and what a provider's error says.
pub mod Laws
use scribe_drop.Common.{String, Bool, true, false, List, [], ◌∷◌, any, ◌is◌}

pub data GpuExecutionStatus : Type 0 where
  pending creating running cancel_requested terminal : GpuExecutionStatus

pub data GpuCleanupStatus : Type 0 where
  not_requested pending in_progress succeeded failed : GpuCleanupStatus

pub data GpuProviderErrorKind : Type 0 where
  cancelled conflict permanent retryable unknown_outcome : GpuProviderErrorKind

pub record GpuProviderErrorDescriptor : Type 0 where
  pub outcome_known : Bool
  pub retryable : Bool

abbrev execution_text : GpuExecutionStatus → String
execution_text GpuExecutionStatus.pending = "PENDING"
execution_text GpuExecutionStatus.creating = "CREATING"
execution_text GpuExecutionStatus.running = "RUNNING"
execution_text GpuExecutionStatus.cancel_requested = "CANCEL_REQUESTED"
execution_text GpuExecutionStatus.terminal = "TERMINAL"

abbrev cleanup_text : GpuCleanupStatus → String
cleanup_text GpuCleanupStatus.not_requested = "NOT_REQUESTED"
cleanup_text GpuCleanupStatus.pending = "PENDING"
cleanup_text GpuCleanupStatus.in_progress = "IN_PROGRESS"
cleanup_text GpuCleanupStatus.succeeded = "SUCCEEDED"
cleanup_text GpuCleanupStatus.failed = "FAILED"

pub gpu_execution_status_transitions : GpuExecutionStatus → List GpuExecutionStatus
gpu_execution_status_transitions GpuExecutionStatus.cancel_requested =
    GpuExecutionStatus.terminal ∷ []
gpu_execution_status_transitions GpuExecutionStatus.creating =
    GpuExecutionStatus.running ∷ GpuExecutionStatus.cancel_requested ∷ GpuExecutionStatus.terminal
    ∷ []
gpu_execution_status_transitions GpuExecutionStatus.pending =
    GpuExecutionStatus.creating ∷ GpuExecutionStatus.cancel_requested ∷ GpuExecutionStatus.terminal
    ∷ []
gpu_execution_status_transitions GpuExecutionStatus.running =
    GpuExecutionStatus.cancel_requested ∷ GpuExecutionStatus.terminal ∷ []
gpu_execution_status_transitions GpuExecutionStatus.terminal = []

pub gpu_cleanup_status_transitions : GpuCleanupStatus → List GpuCleanupStatus
gpu_cleanup_status_transitions GpuCleanupStatus.failed = GpuCleanupStatus.pending ∷ []
gpu_cleanup_status_transitions GpuCleanupStatus.in_progress =
    GpuCleanupStatus.succeeded ∷ GpuCleanupStatus.failed ∷ []
gpu_cleanup_status_transitions GpuCleanupStatus.not_requested = GpuCleanupStatus.pending ∷ []
gpu_cleanup_status_transitions GpuCleanupStatus.pending = GpuCleanupStatus.in_progress ∷ []
gpu_cleanup_status_transitions GpuCleanupStatus.succeeded = []

unfoldable pub can_transition_gpu_execution_status : GpuExecutionStatus → GpuExecutionStatus → Bool
unfolding gpu_execution_status_transitions
can_transition_gpu_execution_status from to =
    any (λ x. execution_text x is execution_text to) (gpu_execution_status_transitions from)

unfoldable pub can_transition_gpu_cleanup_status : GpuCleanupStatus → GpuCleanupStatus → Bool
unfolding gpu_cleanup_status_transitions
can_transition_gpu_cleanup_status from to =
    any (λ x. cleanup_text x is cleanup_text to) (gpu_cleanup_status_transitions from)

unfoldable pub get_gpu_provider_error_descriptor : GpuProviderErrorKind → GpuProviderErrorDescriptor
get_gpu_provider_error_descriptor GpuProviderErrorKind.cancelled = record {
  outcome_known = true;
  retryable = false;
}
get_gpu_provider_error_descriptor GpuProviderErrorKind.conflict = record {
  outcome_known = true;
  retryable = false;
}
get_gpu_provider_error_descriptor GpuProviderErrorKind.permanent = record {
  outcome_known = true;
  retryable = false;
}
get_gpu_provider_error_descriptor GpuProviderErrorKind.retryable = record {
  outcome_known = true;
  retryable = true;
}
get_gpu_provider_error_descriptor GpuProviderErrorKind.unknown_outcome = record {
  outcome_known = false;
  retryable = false;
}

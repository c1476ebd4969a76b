-- ===== src/Controller/Service/Executions.antt =====
-- Of apps/gpu-controller/src/controller-service.ts: what the executions of a job say of its record, and
-- the outcome of running the job.
use scribe_drop.Common.{Bool, true, false, List, [], ◌∷◌, Option, none, some, ◌is◌, if◌then◌else◌}
use scribe_drop.Controller.Contracts.{ErrorCode}
use scribe_drop.Controller.Provider.{
  ErrorKind, Mutation, ProviderJob, ExecutionStatus, ProviderExecution, ExecutionList,
}
use scribe_drop.Controller.Record.{ControlState, ControlRecord, Changes, no_changes}
use scribe_drop.Controller.Program.{Call, Program, ask, update}

abbrev pub error_of_kind : ErrorKind → ErrorCode
error_of_kind ErrorKind.retryable = ErrorCode.provider_retryable
error_of_kind ErrorKind.permanent = ErrorCode.provider_permanent

abbrev pub unknown_outcome : Changes
unknown_outcome = record no_changes { error_code = some (some ErrorCode.unknown_outcome) }

abbrev pub state_of_status : ExecutionStatus → ControlState
state_of_status ExecutionStatus.pending = ControlState.execution_pending
state_of_status ExecutionStatus.running = ControlState.running
state_of_status ExecutionStatus.succeeded = ControlState.succeeded
state_of_status ExecutionStatus.failed = ControlState.failed
state_of_status ExecutionStatus.cancelled = ControlState.cancelled

abbrev pub error_of_status : ExecutionStatus → Option ErrorCode
error_of_status ExecutionStatus.failed = some ErrorCode.provider_permanent
error_of_status _ = none

-- `for (const execution of executions) await this.#provider.cancelExecution(execution)`.
unfoldable pub cancel_all : {A : Type 0} → List ProviderExecution → Program A → Program A
cancel_all [] next = next
cancel_all (e ∷ es) next = ask (Call.cancel_execution e) λ _. cancel_all es next

-- `execution.jobRef === record.job?.ref`.
abbrev pub belongs : ProviderExecution → Option ProviderJob → Bool
belongs e none = false
belongs e (some job) = e.job_ref is job.ref

abbrev pub drifted : Changes
drifted = record no_changes {
  state = some ControlState.failed;
  cleanup_intent = some true;
  error_code = some (some ErrorCode.resource_drift);
}

unfoldable pub handle_execution_list :
    ControlRecord → List ProviderExecution → Program ControlRecord
handle_execution_list r [] =
    update r
      (record no_changes { state = some ControlState.execution_pending; error_code = some none })
handle_execution_list r (e ∷ []) =
    if belongs e r.job
    then update r (record no_changes {
      state = some (state_of_status e.status);
      execution = some (some e);
      error_code = some (error_of_status e.status);
    })
    else ask (Call.cancel_execution e) λ _. update r drifted
handle_execution_list r (e ∷ e' ∷ es) = cancel_all (e ∷ e' ∷ es) (
    update r (record no_changes {
      state = some ControlState.failed;
      cleanup_intent = some true;
      error_code = some (some ErrorCode.multiple_executions);
    }))

unfoldable pub observe_execution : ControlRecord → Program ControlRecord
observe_execution r = ask (Call.list_executions r.job_id) λ result. elim result [
  | ExecutionList.unavailable ↦ update r unknown_outcome
  | ExecutionList.found executions ↦ handle_execution_list r executions
]

unfoldable pub record_run_mutation : ControlRecord → Mutation → Program ControlRecord
record_run_mutation r (Mutation.accepted operation) = update r (record no_changes {
  state = some ControlState.execution_pending;
  operation_ref = some (some operation);
  error_code = some none;
})
record_run_mutation r Mutation.unknown = update r (record no_changes {
  state = some ControlState.execution_pending;
  error_code = some (some ErrorCode.unknown_outcome);
})
record_run_mutation r Mutation.conflict = update r (record no_changes {
  state = some ControlState.failed;
  error_code = some (some ErrorCode.conflict);
})
record_run_mutation r (Mutation.rejected kind) = update r (record no_changes {
  state = some ControlState.failed;
  error_code = some (some (error_of_kind kind));
})

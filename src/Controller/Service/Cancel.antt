-- ===== src/Controller/Service/Cancel.antt =====
-- Of apps/gpu-controller/src/controller-service.ts: the cancellation of an execution.
use scribe_drop.Common.{Bool, true, false, not, ◌||◌, none, some, if◌then◌else◌, is_some}
use scribe_drop.Controller.Contracts.{ErrorCode}
use scribe_drop.Controller.Provider.{ErrorKind, Mutation}
use scribe_drop.Controller.Record.{ControlState, ControlRecord, Changes, no_changes}
use scribe_drop.Controller.Program.{Call, Program, done, ask, ◌>>=◌, try_update, update}
use scribe_drop.Controller.Service.Executions.{observe_execution}

-- `["SUCCEEDED", "FAILED", "CANCELLED"].includes(state)`.
abbrev pub is_settled : ControlState → Bool
is_settled ControlState.succeeded = true
is_settled ControlState.failed = true
is_settled ControlState.cancelled = true
is_settled _ = false

abbrev pub cancelling : Changes
cancelling = record no_changes {
  state = some ControlState.cancel_pending;
  cancel_intent = some true;
}

unfoldable pub cancel_outcome : Mutation → Changes
cancel_outcome (Mutation.rejected ErrorKind.permanent) = record no_changes {
  error_code = some (some ErrorCode.provider_permanent);
}
cancel_outcome Mutation.unknown = record no_changes {
  error_code = some (some ErrorCode.unknown_outcome);
}
cancel_outcome _ = record no_changes { error_code = some none }

-- Behind the claim: the execution of the record is cancelled at the provider.
unfoldable pub send_cancel : ControlRecord → Program ControlRecord
unfolding cancel_outcome
send_cancel current = elim current.execution [
  | none ↦ done current
  | some execution ↦
      ask (Call.cancel_execution execution) λ result. update current (cancel_outcome result)
]

unfoldable pub cancel_observed : ControlRecord → Program ControlRecord
unfolding send_cancel
cancel_observed current =
    if not (is_some current.execution)
    then update current cancelling
    else if is_settled current.state
    then done current
    else (try_update current cancelling >>= λ claimed.
        if claimed.0 then send_cancel claimed.1 else done claimed.1)

unfoldable pub cancel_record : ControlRecord → Program ControlRecord
unfolding cancel_observed
cancel_record r =
    (if not (is_some r.execution) || r.cancel_intent then observe_execution r else done r)
    >>= λ current. cancel_observed current

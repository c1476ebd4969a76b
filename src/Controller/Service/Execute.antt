-- ===== src/Controller/Service/Execute.antt =====
-- Of apps/gpu-controller/src/controller-service.ts: a request from its claim to its response.
use scribe_drop.Common.{ℕ, ◌+◌, ◌*◌, String, Bool, true, false, ◌==◌, Option, some, if◌then◌else◌}
use scribe_drop.Controller.Contracts.{
  Action, Outcome, ErrorCode, Request, Response, same_environment,
}
use scribe_drop.Controller.Record.{at, ControlState, ControlRecord}
use scribe_drop.Controller.Store.{
  RequestIdentity, AdmitCreateInput, AdmitCreateResult, ClaimRequestInput, ClaimRequestResult,
}
use scribe_drop.Controller.Program.{Call, Program, done, ask, ◌>>=◌, Controller, job_id_of}
use scribe_drop.Controller.Service.Executions.{observe_execution}
use scribe_drop.Controller.Service.Reconcile.{
  provisioning_window_ms, create_fuel, send_create, reconcile_job, observe_record,
}
use scribe_drop.Controller.Service.Cancel.{cancel_record}
use scribe_drop.Controller.Service.Cleanup.{cleanup_record}

abbrev pub record_ttl_ms : ℕ
record_ttl_ms = 31 * 24 * 60 * 60000

unfoldable pub outcome_of_state : ControlState → Outcome
outcome_of_state ControlState.create_intent = Outcome.accepted
outcome_of_state ControlState.create_unknown = Outcome.unknown
outcome_of_state ControlState.job_pending = Outcome.pending
outcome_of_state ControlState.job_ready = Outcome.pending
outcome_of_state ControlState.run_intent = Outcome.pending
outcome_of_state ControlState.execution_pending = Outcome.pending
outcome_of_state ControlState.running = Outcome.running
outcome_of_state ControlState.succeeded = Outcome.succeeded
outcome_of_state ControlState.failed = Outcome.failed
outcome_of_state ControlState.cancel_pending = Outcome.pending
outcome_of_state ControlState.cancelled = Outcome.cancelled
outcome_of_state ControlState.cleanup_pending = Outcome.pending
outcome_of_state ControlState.cleaned = Outcome.cleaned

-- `record.errorCode === "UNKNOWN_OUTCOME" ? "unknown" : outcomes[record.state]`.
abbrev pub response_outcome : Option ErrorCode → ControlState → Outcome
response_outcome (some ErrorCode.unknown_outcome) state = Outcome.unknown
response_outcome _ state = outcome_of_state state

unfoldable pub response : Request → ControlRecord → Response
unfolding outcome_of_state
response request r = record {
  error_code = r.error_code;
  execution_handle = request.execution_handle;
  outcome = response_outcome r.error_code r.state;
  request_id = request.request_id;
  version = r.version;
}

unfoldable pub rejected : Request → ErrorCode → ℕ → Response
rejected request code version = record {
  error_code = some code;
  execution_handle = request.execution_handle;
  outcome = Outcome.rejected;
  request_id = request.request_id;
  version = version;
}

abbrev pub identity_of : Request → String → RequestIdentity
identity_of request digest = record {
  request_id = request.request_id;
  digest = digest;
  environment = request.environment;
  execution_handle = request.execution_handle;
  action = request.action;
}

abbrev pub reject : Request → ErrorCode → Program Response
reject request code = done (rejected request code request.expected_version)

unfoldable pub answer_admission : Controller → Request → AdmitCreateResult → Program Response
answer_admission c request AdmitCreateResult.budget_exhausted =
    reject request ErrorCode.budget_exhausted
answer_admission c request AdmitCreateResult.environment_mismatch =
    reject request ErrorCode.environment_mismatch
answer_admission c request AdmitCreateResult.rate_limited = reject request ErrorCode.rate_limited
answer_admission c request AdmitCreateResult.conflict = reject request ErrorCode.conflict
answer_admission c request (AdmitCreateResult.duplicate r) = done (response request r)
answer_admission c request (AdmitCreateResult.accepted r) =
    send_create c create_fuel r >>= λ sent. done (response request sent)

unfoldable pub admission_input : Controller → Request → String → ℕ → AdmitCreateInput
admission_input c request digest now = record {
  identity = identity_of request digest;
  job_id = job_id_of c request.environment request.execution_handle;
  now = at now;
  provisioning_deadline = at (now + provisioning_window_ms);
  record_expires_at = at (now + record_ttl_ms);
}

unfoldable pub create : Controller → Request → String → Program Response
unfolding answer_admission
create c request digest =
    if request.expected_version == 0
    then (ask Call.now λ now.
        ask (Call.admit_create (admission_input c request digest now)) (answer_admission c request))
    else reject request ErrorCode.stale_version

-- `#reconcileRecord`, on the state of the record.
unfoldable pub reconcile_in : Controller → ControlRecord → ControlState → Program ControlRecord
reconcile_in c r ControlState.cleaned = done r
reconcile_in c r ControlState.cancelled = done r
reconcile_in c r ControlState.succeeded = done r
reconcile_in c r ControlState.cleanup_pending = cleanup_record r
reconcile_in c r ControlState.failed = if r.cleanup_intent then cleanup_record r else done r
reconcile_in c r _ =
    if r.cleanup_intent
    then cleanup_record r
    else if r.run_intent
    then observe_execution r
    else reconcile_job c r true

unfoldable pub reconcile_record : Controller → ControlRecord → Program ControlRecord
unfolding reconcile_in
reconcile_record c r = reconcile_in c r r.state

-- The `switch` over the actions; a `create` does not come here.
unfoldable pub act : Controller → Action → ControlRecord → Program ControlRecord
unfolding reconcile_record
act c Action.create r = done r
act c Action.observe r = observe_record c r
act c Action.reconcile r = reconcile_record c r
act c Action.cancel r = cancel_record r
act c Action.cleanup r = cleanup_record r

unfoldable pub answer_claim : Controller → Request → ClaimRequestResult → Program Response
unfolding act
answer_claim c request ClaimRequestResult.environment_mismatch =
    reject request ErrorCode.environment_mismatch
answer_claim c request ClaimRequestResult.conflict = reject request ErrorCode.conflict
answer_claim c request ClaimRequestResult.not_found = reject request ErrorCode.conflict
answer_claim c request (ClaimRequestResult.stale r) =
    done (rejected request ErrorCode.stale_version r.version)
answer_claim c request ClaimRequestResult.rate_limited = reject request ErrorCode.rate_limited
answer_claim c request (ClaimRequestResult.duplicate r) = done (response request r)
answer_claim c request (ClaimRequestResult.accepted r) =
    act c request.action r >>= λ acted. done (response request acted)

unfoldable pub claim_input : Request → String → ℕ → ClaimRequestInput
claim_input request digest now = record {
  identity = identity_of request digest;
  expected_version = request.expected_version;
  now = at now;
}

abbrev pub is_create : Action → Bool
is_create Action.create = true
is_create _ = false

unfoldable pub execute : Controller → Request → String → Program Response
unfolding create answer_claim
execute c request digest =
    if same_environment request.environment c.environment
    then if is_create request.action
      then create c request digest
      else (ask Call.now
          λ now. ask (Call.claim_request (claim_input request digest now)) (answer_claim c request))
    else reject request ErrorCode.environment_mismatch

-- ===== src/Runtime/Service/Report.antt =====
-- `acknowledge`, `heartbeat` and `terminal` of `CloudRunRuntimeService`,
-- apps/orchestrator/src/cloud-run-runtime-service.ts.
use scribe_drop.Common.{ℕ}
use scribe_drop.Controller.Record.{at}
use scribe_drop.Runtime.Record.{RuntimeAttemptContext, EventKind}
use scribe_drop.Runtime.Store.{ApplySessionEventResult, ApplyInput}
use scribe_drop.Runtime.Guards.{ErrorCode}
use scribe_drop.Runtime.Service.Base.{SessionRequest, Ports, Response, Program}

unfoldable pub event_input : Ports → ℕ → SessionRequest → ApplyInput
event_input ports now request = record {
  event = request.event;
  digest = ports.digest_session request;
  token_hash = ports.secrets.hash request.session_token;
  now = at now;
}

-- What the method of an event does when the store has taken it.
unfoldable pub reported : EventKind → SessionRequest → RuntimeAttemptContext → Program
reported EventKind.ack request context = Program.done Response.acknowledged
reported EventKind.heartbeat request context =
    Program.done (Response.heartbeat context.cancel_requested)
reported EventKind.terminal request context = Program.finalize context request (
    Program.schedule_cleanup context.environment context.execution_handle
      (Program.done Response.accepted))

unfoldable pub applied : SessionRequest → ApplySessionEventResult → Program
unfolding reported
applied request ApplySessionEventResult.conflict = Program.failed ErrorCode.claim_conflict
applied request ApplySessionEventResult.expired = Program.failed ErrorCode.session_expired
applied request ApplySessionEventResult.rejected = Program.failed ErrorCode.session_rejected
applied request ApplySessionEventResult.stale = Program.failed ErrorCode.invalid_sequence
applied request (ApplySessionEventResult.accepted context) =
    reported request.event.kind request context
applied request (ApplySessionEventResult.duplicate context) =
    reported request.event.kind request context

-- The method of an event, by its kind: `acknowledge`, `heartbeat` or `terminal`.
unfoldable pub report : Ports → ℕ → SessionRequest → Program
unfolding event_input applied
report ports now request =
    Program.apply_session_event (event_input ports now request) (applied request)

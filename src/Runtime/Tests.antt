-- ===== src/Runtime/Tests.antt =====
-- A session of apps/orchestrator/src/cloud-run-runtime-store.ts from its bootstrap to its end.
use scribe_drop.Common.Filed.{Filed}
use scribe_drop.Runtime.Store.Replay.{resent, apply_session_event-again}
use scribe_drop.Runtime.Store.Outcomes.{accepted_context}
use scribe_drop.Runtime.Store.{ApplySessionEventResult}
use scribe_drop.Runtime.Guards.{
  CloudRunRuntimeConfiguration, RuntimeRequest, ControllerExecutionReadback,
  require_runtime_identity, require_readback, reads_back, is_subject,
}
use scribe_drop.Common.{◌≡◌, true, some, ℕ, refl, false, [], ◌∷◌, none}
use scribe_drop.Common.Texts.{all_codes, text_length}
use scribe_drop.Common.Assoc.{lookup, put}
use scribe_drop.Controller.Contracts.{Environment}
use scribe_drop.Controller.Record.{at}
use scribe_drop.Runtime.Record.{
  AttemptStatus, RuntimeAttemptContext, RuntimeBootstrapRecord, EventKind,
}
use scribe_drop.Runtime.Store.{
  RuntimeStore, ConsumeInput, ApplyInput, begin_bootstrap, consume_challenge, apply_session_event,
  awaits, consume_found, consume_unclaimed, claimed_record, with_status, session_record, replay_of,
  same_key, put_event, apply_new, apply_known, apply_in_turn, out_of_turn,
}
use scribe_drop.Runtime.Store.Results.{
  Opened, begin_bootstrap-Opened, Claimed, consume_challenge-Claimed, EventFiled,
  apply_session_event-Filed,
}
use scribe_drop.Runtime.Sessions.{Run, start, begin, consume, apply, events_of, InOrder}
use scribe_drop.Runtime.Sessions.Order.{events-InOrder}

abbrev context : RuntimeAttemptContext
context = record {
  environment = Environment.staging;
  execution_handle = "handle";
  job_id = "job";
  attempt_id = "attempt";
  owner_hash = "owner";
  source_etag = "etag";
  source_key = "key";
  source_size_bytes = 1000;
  cancel_requested = false;
  status = AttemptStatus.pending_bootstrap;
}

abbrev bootstrap : RuntimeBootstrapRecord
bootstrap = record {
  bootstrap_request_id = "request";
  request_digest = "digest";
  execution_handle = "handle";
  execution_name = "execution";
  job_name = "job";
  public_key = "key";
  public_key_digest = "key digest";
  challenge_id = "challenge";
  challenge_hash = "hash";
  challenge_expires_at = at 2000;
  session_id = none;
  session_token_hash = none;
  session_issued_at = none;
  session_expires_at = none;
  claim_digest = none;
  last_sequence = none;
  revoked_at = none;
  terminal_digest = none;
}

abbrev claim : ConsumeInput
claim = record {
  bootstrap_request_id = "request";
  challenge_id = "challenge";
  claim_digest = "claim";
  execution_handle = "handle";
  now = at 1000;
  session_id = "session";
  session_token_hash = "token";
  session_issued_at = at 1000;
  session_expires_at = at 9000;
}

abbrev event : EventKind → ℕ → ApplyInput
event kind n = record {
  event = record { kind = kind; session_id = "session"; execution_handle = "handle"; sequence = n };
  digest = "event";
  token_hash = "token";
  now = at 1500;
}

abbrev empty : RuntimeStore
empty = record { attempts = ("handle", context) ∷ []; bootstraps = []; events = [] }

begun : RuntimeStore
begun = (begin_bootstrap empty context bootstrap).0

claimed : RuntimeStore
unfolding begun
claimed = (consume_challenge begun claim).0

acknowledged : RuntimeStore
unfolding claimed
acknowledged = (apply_session_event claimed (event EventKind.ack 0)).0

ended : RuntimeStore
unfolding acknowledged
ended = (apply_session_event acknowledged (event EventKind.terminal 1)).0

session : Run empty ended (
    ("request", (event EventKind.terminal 1).event)
    ∷ ("request", (event EventKind.ack 0).event)
    ∷ [])
unfolding ended lookup put begin_bootstrap consume_challenge apply_session_event awaits
    consume_found consume_unclaimed claimed_record with_status session_record replay_of same_key
    put_event apply_new apply_known apply_in_turn out_of_turn
session =
    apply (event EventKind.terminal 1) ended _
      (apply (event EventKind.ack 0) acknowledged _
        (consume claim claimed (begin context bootstrap begun start refl refl) refl) refl refl)
      refl refl

events-InOrder_example : InOrder (
    events_of "request" (
      ("request", (event EventKind.terminal 1).event)
      ∷ ("request", (event EventKind.ack 0).event)
      ∷ []))
events-InOrder_example =
    events-InOrder empty ended
      (("request", (event EventKind.terminal 1).event)
        ∷ ("request", (event EventKind.ack 0).event)
        ∷ [])
      "request" refl session

begin_bootstrap-Opened_example :
    Opened empty context bootstrap "request" (begin_bootstrap empty context bootstrap)
begin_bootstrap-Opened_example = begin_bootstrap-Opened empty context bootstrap "request"

consume_challenge-Claimed_example : Claimed begun claim "request" (consume_challenge begun claim)
consume_challenge-Claimed_example = consume_challenge-Claimed begun claim "request"

apply_session_event-Filed_example :
    EventFiled claimed
      (event EventKind.ack 0)
      "request"
      (apply_session_event claimed (event EventKind.ack 0))
apply_session_event-Filed_example =
    apply_session_event-Filed claimed (event EventKind.ack 0) "request"

abbrev configuration : CloudRunRuntimeConfiguration
configuration = record {
  challenge_lifetime_ms = 60000;
  clock_skew_ms = 1000;
  environment = Environment.staging;
  identity_audience = "audience";
  identity_issuer = "issuer";
  runtime_service_account = "worker";
  session_lifetime_ms = 600000;
}

abbrev request : RuntimeRequest
request = record {
  environment = Environment.staging;
  execution_handle = "handle";
  execution_name = "execution";
  job_name = "job";
  policy_id = "policy";
}

abbrev readback : ControllerExecutionReadback
readback = record {
  active_execution_count = 1;
  controller_version = 5;
  environment = Environment.staging;
  execution_handle = "handle";
  execution_name = "execution";
  job_name = "job";
  manifest_matches = true;
  policy_id = "policy";
  retried_count = 0;
  runtime_service_account = "worker";
  state = "running";
  task_count = 1;
}

passes_identity : require_runtime_identity configuration request context ≡ none
unfolding require_runtime_identity
passes_identity = refl

passes_readback : require_readback configuration request context (some readback) ≡ none
unfolding require_readback reads_back
passes_readback = refl

-- A subject has between six and thirty-two digits.
subject_accepted : is_subject "123456789" ≡ true
unfolding is_subject all_codes text_length
subject_accepted = refl

subject_refused : is_subject "12a456" ≡ false
unfolding is_subject all_codes text_length
subject_refused = refl

acknowledged_again :
    accepted_context (apply_session_event claimed (event EventKind.ack 0)).1
    ≡ some (record context { status = AttemptStatus.running })
unfolding claimed begun lookup put begin_bootstrap consume_challenge apply_session_event awaits
    consume_found consume_unclaimed claimed_record with_status session_record replay_of same_key
    put_event apply_new apply_known apply_in_turn out_of_turn
acknowledged_again = refl

bootstraps-Filed : Filed (λ x. x.bootstrap_request_id) claimed.bootstraps
unfolding claimed begun lookup put begin_bootstrap consume_challenge awaits consume_found
    consume_unclaimed claimed_record with_status
bootstraps-Filed = (refl, refl, tt)

attempts-Filed : Filed (λ x. x.execution_handle) claimed.attempts
unfolding claimed begun lookup put begin_bootstrap consume_challenge awaits consume_found
    consume_unclaimed claimed_record with_status
attempts-Filed = (refl, refl, tt)

apply_session_event-again_example :
    apply_session_event
      (apply_session_event claimed (event EventKind.ack 0)).0
      (resent (event EventKind.ack 0) (at 99) "stale")
    ≡ (
      (apply_session_event claimed (event EventKind.ack 0)).0,
      ApplySessionEventResult.duplicate (record context { status = AttemptStatus.running }),
    )
apply_session_event-again_example =
    apply_session_event-again claimed (event EventKind.ack 0)
      (record context { status = AttemptStatus.running }) (at 99) "stale" bootstraps-Filed
      attempts-Filed acknowledged_again

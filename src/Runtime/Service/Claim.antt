-- ===== src/Runtime/Service/Claim.antt =====
-- `claim` of `CloudRunRuntimeService`, apps/orchestrator/src/cloud-run-runtime-service.ts.
use scribe_drop.Common.{
  ℕ, ◌+◌, String, Bool, true, false, not, ◌&&◌, Option, none, some, ◌is◌, if◌then◌else◌,
}
use scribe_drop.Controller.Record.{Timestamp, at}
use scribe_drop.Runtime.Record.{RuntimeAttemptContext, RuntimeBootstrapRecord}
use scribe_drop.Runtime.Store.{ConsumeChallengeResult, ConsumeInput}
use scribe_drop.Runtime.Guards.{
  ErrorCode, CloudRunRuntimeConfiguration, has_passed, require_runtime_identity, require_readback,
}
use scribe_drop.Runtime.Framing.{frame_runtime_challenge}
use scribe_drop.Runtime.Service.Base.{
  ClaimRequest, Ports, Response, Program, guarded, challenge_fields, challenge_of, token_of,
  require_context,
}

abbrev pub unclaimed : Option String → Bool
unclaimed none = true
unclaimed (some _) = false

-- The signature of the challenge, by the key that the bootstrap has brought.
unfoldable pub signature_valid : Ports → RuntimeBootstrapRecord → String → Bool
unfolding challenge_fields frame_runtime_challenge
signature_valid ports r signature =
    ports.verify_signature r.public_key
      (frame_runtime_challenge ports.encode (challenge_fields r (challenge_of ports r))) signature

unfoldable pub claim_input :
    CloudRunRuntimeConfiguration → Ports → ℕ → String → ClaimRequest → ConsumeInput
claim_input c ports now session_id request = record {
  bootstrap_request_id = request.bootstrap_request_id;
  challenge_id = request.challenge_id;
  claim_digest = ports.digest_claim request;
  execution_handle = request.runtime.execution_handle;
  now = at now;
  session_id = session_id;
  session_token_hash =
      ports.secrets.hash (
        token_of ports.secrets request.bootstrap_request_id (ports.digest_claim request)
          session_id);
  session_issued_at = at now;
  session_expires_at = at (now + c.session_lifetime_ms);
}

-- The response on a record whose session, with its end and its claim, are these.
unfoldable pub session_response :
    Ports
    → ℕ
    → RuntimeAttemptContext
    → RuntimeBootstrapRecord
    → Option String
    → Option Timestamp
    → Option String
    → Program
session_response ports now context r (some session_id) (some expires_at) (some claim_digest) =
    if has_passed expires_at now
    then Program.failed ErrorCode.session_expired
    else Program.done (
        Response.claimed record {
          attempt_id = context.attempt_id;
          job_id = context.job_id;
          capabilities = ports.issue claim_digest context expires_at;
          expires_at = expires_at;
          session_id = session_id;
          token = token_of ports.secrets r.bootstrap_request_id claim_digest session_id;
        })
session_response ports now context r none expires_at claim_digest =
    Program.failed ErrorCode.claim_conflict
session_response ports now context r (some session_id) none claim_digest =
    Program.failed ErrorCode.claim_conflict
session_response ports now context r (some session_id) (some expires_at) none =
    Program.failed ErrorCode.claim_conflict

unfoldable pub consumed : Ports → ℕ → RuntimeAttemptContext → ConsumeChallengeResult → Program
unfolding session_response
consumed ports now context ConsumeChallengeResult.expired =
    Program.failed ErrorCode.challenge_expired
consumed ports now context ConsumeChallengeResult.not_found =
    Program.failed ErrorCode.execution_not_found
consumed ports now context ConsumeChallengeResult.conflict = Program.failed ErrorCode.claim_conflict
consumed ports now context (ConsumeChallengeResult.accepted r) =
    session_response ports now context r r.session_id r.session_expires_at r.claim_digest
consumed ports now context (ConsumeChallengeResult.duplicate r) =
    session_response ports now context r r.session_id r.session_expires_at r.claim_digest

-- The claim of a bootstrap that is known, in a context that the guards have let through.
unfoldable pub claim_signed :
    CloudRunRuntimeConfiguration
    → Ports
    → ℕ
    → String
    → ClaimRequest
    → RuntimeBootstrapRecord
    → RuntimeAttemptContext
    → Program
unfolding signature_valid claim_input consumed
claim_signed c ports now session_id request r context =
    if not (ports.secrets.hash (challenge_of ports r) is r.challenge_hash)
    then Program.failed ErrorCode.claim_conflict
    else if not (signature_valid ports r request.signature)
    then Program.failed ErrorCode.authentication_failed
    else Program.consume_challenge (claim_input c ports now session_id request)
        (consumed ports now context)

unfoldable pub claim_known :
    CloudRunRuntimeConfiguration
    → Ports
    → ℕ
    → String
    → ClaimRequest
    → RuntimeBootstrapRecord
    → Program
unfolding require_context require_runtime_identity require_readback claim_signed
claim_known c ports now session_id request r =
    if not (r.execution_handle is request.runtime.execution_handle)
    then Program.failed ErrorCode.execution_not_found
    else if has_passed r.challenge_expires_at now && unclaimed r.claim_digest
    then Program.failed ErrorCode.challenge_expired
    else require_context request.runtime.execution_handle λ context.
      guarded (require_runtime_identity c request.runtime context) (
        guarded
          (require_readback c request.runtime context
            (ports.read_execution request.runtime.execution_handle))
          (claim_signed c ports now session_id request r context))

unfoldable pub claim : CloudRunRuntimeConfiguration → Ports → ℕ → String → ClaimRequest → Program
unfolding claim_known
claim c ports now session_id request = Program.get_bootstrap request.bootstrap_request_id λ found.
    elim found [
      | none ↦ Program.failed ErrorCode.execution_not_found
      | some r ↦ claim_known c ports now session_id request r
    ]

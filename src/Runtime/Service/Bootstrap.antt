-- ===== src/Runtime/Service/Bootstrap.antt =====
-- `bootstrap` of `CloudRunRuntimeService`, apps/orchestrator/src/cloud-run-runtime-service.ts.
use scribe_drop.Common.{ℕ, ◌+◌, not, ◌||◌, [], ◌∷◌, Option, none, some, ◌is◌, String, if◌then◌else◌}
use scribe_drop.Controller.Record.{at}
use scribe_drop.Runtime.Record.{RuntimeBootstrapRecord}
use scribe_drop.Runtime.Store.{BeginBootstrapResult}
use scribe_drop.Runtime.Guards.{
  ErrorCode, VerifiedGoogleIdentity, CloudRunRuntimeConfiguration, has_passed,
  require_google_identity, require_runtime_identity, require_readback,
}
use scribe_drop.Runtime.Service.Base.{
  BootstrapRequest, Ports, SecretLabel, Program, guarded, require_context, bootstrap_response,
}

-- The record of a bootstrap that begins.
unfoldable pub new_bootstrap :
    CloudRunRuntimeConfiguration → Ports → ℕ → String → BootstrapRequest → RuntimeBootstrapRecord
new_bootstrap c ports now challenge_id request = record {
  bootstrap_request_id = request.bootstrap_request_id;
  request_digest = ports.digest_bootstrap request;
  execution_handle = request.runtime.execution_handle;
  execution_name = request.runtime.execution_name;
  job_name = request.runtime.job_name;
  public_key = request.public_key;
  public_key_digest = ports.digest_key request.public_key;
  challenge_id = challenge_id;
  challenge_hash = ports.secrets.hash (
      ports.secrets.derive SecretLabel.challenge
        (request.bootstrap_request_id ∷ ports.digest_bootstrap request ∷ challenge_id ∷ []));
  challenge_expires_at = at (now + c.challenge_lifetime_ms);
  session_id = none;
  session_token_hash = none;
  session_issued_at = none;
  session_expires_at = none;
  claim_digest = none;
  last_sequence = none;
  revoked_at = none;
  terminal_digest = none;
}

unfoldable pub begun : Ports → BeginBootstrapResult → Program
unfolding bootstrap_response
begun ports BeginBootstrapResult.conflict = Program.failed ErrorCode.bootstrap_conflict
begun ports BeginBootstrapResult.not_found = Program.failed ErrorCode.execution_not_found
begun ports (BeginBootstrapResult.accepted r) = bootstrap_response ports r
begun ports (BeginBootstrapResult.duplicate r) = bootstrap_response ports r

-- The bootstrap of a request that is new.
unfoldable pub bootstrap_new :
    CloudRunRuntimeConfiguration
    → Ports
    → ℕ
    → String
    → BootstrapRequest
    → Option VerifiedGoogleIdentity
    → Program
unfolding require_google_identity require_runtime_identity require_readback require_context
    new_bootstrap begun
bootstrap_new c ports now challenge_id request none = Program.failed ErrorCode.authentication_failed
bootstrap_new c ports now challenge_id request (some identity) =
    guarded (require_google_identity c identity now) (
      require_context request.runtime.execution_handle λ context.
        guarded (require_runtime_identity c request.runtime context) (
          guarded
            (require_readback c request.runtime context
              (ports.read_execution request.runtime.execution_handle))
            (Program.begin_bootstrap context (new_bootstrap c ports now challenge_id request)
              (begun ports))))

unfoldable pub bootstrap :
    CloudRunRuntimeConfiguration → Ports → ℕ → String → BootstrapRequest → Program
unfolding bootstrap_new bootstrap_response
bootstrap c ports now challenge_id request =
    Program.get_bootstrap request.bootstrap_request_id λ found. elim found [
      | none ↦
          bootstrap_new c ports now challenge_id request
            (ports.verify_identity request.identity_token c.identity_audience)
      | some existing ↦
          if not (existing.request_digest is ports.digest_bootstrap request)
            || not (existing.execution_handle is request.runtime.execution_handle)
          then Program.failed ErrorCode.bootstrap_conflict
          else if has_passed existing.challenge_expires_at now
          then Program.failed ErrorCode.challenge_expired
          else bootstrap_response ports existing
    ]

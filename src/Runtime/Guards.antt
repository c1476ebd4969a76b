-- ===== src/Runtime/Guards.antt =====
-- The guards of apps/orchestrator/src/cloud-run-runtime-service.ts: what a worker that presents itself,
-- the identity that Google vouches for, and what the controller reads back must agree on. A guard that
-- throws returns its error.
use scribe_drop.Common.{
  ℕ, ◌+◌, String, Bool, false, not, ◌&&◌, ◌||◌, Option, none, some, leb, ltb, ◌==◌, ◌is◌,
  if◌then◌else◌,
}
use scribe_drop.Common.Texts.{all_codes, is_digit, text_length}
use scribe_drop.Controller.Contracts.{Environment, same_environment}
use scribe_drop.Controller.Record.{Timestamp, at, written_at, unparsable}
use scribe_drop.Runtime.Record.{RuntimeAttemptContext}

pub data ErrorCode : Type 0 where
  authentication_failed bootstrap_conflict challenge_expired claim_conflict : ErrorCode
  execution_not_found invalid_sequence resource_drift session_expired session_rejected : ErrorCode

pub record VerifiedGoogleIdentity : Type 0 where
  pub audience : String
  pub expires_at : Timestamp
  pub issued_at : Timestamp
  pub issuer : String
  pub service_account_email : String
  pub subject_id : String

pub record ControllerExecutionReadback : Type 0 where
  pub active_execution_count : ℕ
  pub controller_version : ℕ
  pub environment : Environment
  pub execution_handle : String
  pub execution_name : String
  pub job_name : String
  pub manifest_matches : Bool
  pub policy_id : String
  pub retried_count : ℕ
  pub runtime_service_account : String
  pub state : String
  pub task_count : ℕ

pub record CloudRunRuntimeConfiguration : Type 0 where
  pub challenge_lifetime_ms : ℕ
  pub clock_skew_ms : ℕ
  pub environment : Environment
  pub identity_audience : String
  pub identity_issuer : String
  pub runtime_service_account : String
  pub session_lifetime_ms : ℕ

-- The fields of a request that the guards read.
pub record RuntimeRequest : Type 0 where
  pub environment : Environment
  pub execution_handle : String
  pub execution_name : String
  pub job_name : String
  pub policy_id : String

-- The pattern `^\d{6,32}$`.
unfoldable pub is_subject : String → Bool
unfolding all_codes text_length
is_subject s = all_codes is_digit s && (leb 6 (text_length s) && leb (text_length s) 32)

-- `Date.parse(t) <= now` and `Date.parse(t) > now`, false where it is not a number.
abbrev pub has_passed : Timestamp → ℕ → Bool
has_passed (at t) now = leb t now
has_passed (written_at t utc text) now = leb t now
has_passed (unparsable text) now = false

abbrev pub is_after : Timestamp → ℕ → Bool
is_after (at t) now = ltb now t
is_after (written_at t utc text) now = ltb now t
is_after (unparsable text) now = false

unfoldable pub require_google_identity :
    CloudRunRuntimeConfiguration → VerifiedGoogleIdentity → ℕ → Option ErrorCode
unfolding is_subject
require_google_identity c identity now =
    if not (identity.audience is c.identity_audience)
      || (not (identity.issuer is c.identity_issuer)
          || (not (identity.service_account_email is c.runtime_service_account)
              || (not (is_subject identity.subject_id)
                  || (has_passed identity.expires_at now
                      || is_after identity.issued_at (now + c.clock_skew_ms)))))
    then some ErrorCode.authentication_failed
    else none

unfoldable pub require_runtime_identity :
    CloudRunRuntimeConfiguration → RuntimeRequest → RuntimeAttemptContext → Option ErrorCode
require_runtime_identity c request context =
    if not (same_environment request.environment c.environment)
      || (not (same_environment request.environment context.environment)
          || not (request.execution_handle is context.execution_handle))
    then some ErrorCode.resource_drift
    else none

unfoldable pub reads_back :
    CloudRunRuntimeConfiguration
    → RuntimeRequest
    → RuntimeAttemptContext
    → ControllerExecutionReadback
    → Bool
reads_back c request context readback =
    readback.active_execution_count == 1
    && (same_environment readback.environment context.environment
        && (readback.execution_handle is request.execution_handle
            && (readback.execution_name is request.execution_name
                && (readback.job_name is request.job_name
                    && (readback.manifest_matches
                        && (readback.policy_id is request.policy_id
                            && (readback.retried_count == 0
                                && (readback.runtime_service_account is c.runtime_service_account
                                    && (readback.state is "running"
                                        && readback.task_count == 1)))))))))

unfoldable pub require_readback :
    CloudRunRuntimeConfiguration
    → RuntimeRequest
    → RuntimeAttemptContext
    → Option ControllerExecutionReadback
    → Option ErrorCode
unfolding reads_back
require_readback c request context none = some ErrorCode.resource_drift
require_readback c request context (some readback) =
    if reads_back c request context readback then none else some ErrorCode.resource_drift

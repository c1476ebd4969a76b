-- ===== src/Runtime/Service/Base.antt =====
-- What the methods of `CloudRunRuntimeService`, apps/orchestrator/src/cloud-run-runtime-service.ts, are
-- made of. A method is a program:
-- it calls the store, the finalizer or the cleanup and goes on with the answer, or it fails with the
-- code of the error that it throws. What the platform, Google, the controller and the signer of
-- capabilities answer are functions that the method is given, and so is the clock's time.
use Prim.Native.String.{String}
use scribe_drop.Common.{
  ℕ, ◌==◌, Bool, not, ◌||◌, List, [], ◌∷◌, Option, none, some, ◌is◌, if◌then◌else◌,
}
use scribe_drop.Controller.Contracts.{Environment}
use scribe_drop.Controller.Record.{Timestamp}
use scribe_drop.Runtime.Record.{RuntimeAttemptContext, RuntimeBootstrapRecord}
use scribe_drop.Runtime.Store.{
  SessionEvent, BeginBootstrapResult, ConsumeChallengeResult, ApplySessionEventResult, ConsumeInput,
  ApplyInput,
}
use scribe_drop.Runtime.Guards.{
  ErrorCode, VerifiedGoogleIdentity, ControllerExecutionReadback, CloudRunRuntimeConfiguration,
  RuntimeRequest,
}

-- The fields of the requests that the service reads.
pub record BootstrapRequest : Type 0 where
  pub runtime : RuntimeRequest
  pub bootstrap_request_id : String
  pub identity_token : String
  pub public_key : String

pub record ClaimRequest : Type 0 where
  pub runtime : RuntimeRequest
  pub bootstrap_request_id : String
  pub challenge_id : String
  pub signature : String

-- An acknowledgement, a heartbeat or a terminal report, by its event; `details` is the rest of it, the
-- progress, the status and the counts, which the store sees through the digest only.
pub record SessionRequest : Type 0 where
  pub event : SessionEvent
  pub session_token : String
  pub details : String

pub record RuntimeClaimCapabilities : Type 0 where
  pub results : String
  pub source : String

pub data SecretLabel : Type 0 where
  challenge session : SecretLabel

-- `RuntimeSecretDeriver`.
pub record RuntimeSecretDeriver : Type 0 where
  pub derive : SecretLabel → List String → String
  pub hash : String → String

-- What the service asks of its ports other than the store, at the times at which a method asks.
pub record Ports : Type 0 where
  pub secrets : RuntimeSecretDeriver
  pub encode : String → List ℕ
  pub digest_bootstrap : BootstrapRequest → String
  pub digest_claim : ClaimRequest → String
  pub digest_session : SessionRequest → String
  pub digest_key : String → String
  pub verify_identity : String → String → Option VerifiedGoogleIdentity
  pub read_execution : String → Option ControllerExecutionReadback
  pub verify_signature : String → List ℕ → String → Bool
  pub issue : String → RuntimeAttemptContext → Timestamp → RuntimeClaimCapabilities

pub record BootstrapResponse : Type 0 where
  pub challenge : String
  pub challenge_id : String
  pub expires_at : Timestamp

pub record ClaimResponse : Type 0 where
  pub attempt_id : String
  pub job_id : String
  pub capabilities : RuntimeClaimCapabilities
  pub expires_at : Timestamp
  pub session_id : String
  pub token : String

pub data Response : Type 0 where
  bootstrapped : BootstrapResponse → Response
  claimed : ClaimResponse → Response
  acknowledged : Response
  heartbeat : Bool → Response
  accepted : Response

pub data Program : Type 0 where
  done : Response → Program
  failed : ErrorCode → Program
  get_bootstrap : String → (Option RuntimeBootstrapRecord → Program) → Program
  get_attempt : String → (Option RuntimeAttemptContext → Program) → Program
  begin_bootstrap :
      RuntimeAttemptContext → RuntimeBootstrapRecord → (BeginBootstrapResult → Program) → Program
  consume_challenge : ConsumeInput → (ConsumeChallengeResult → Program) → Program
  apply_session_event : ApplyInput → (ApplySessionEventResult → Program) → Program
  finalize : RuntimeAttemptContext → SessionRequest → Program → Program
  schedule_cleanup : Environment → String → Program → Program

-- The constructor's test: a challenge and a session last, and the skew is natural.
unfoldable pub accepts_configuration : CloudRunRuntimeConfiguration → Bool
accepts_configuration c = not (c.challenge_lifetime_ms == 0 || c.session_lifetime_ms == 0)

-- To go on where a guard throws nothing.
abbrev pub guarded : Option ErrorCode → Program → Program
guarded none p = p
guarded (some code) p = Program.failed code

unfoldable pub challenge_fields : RuntimeBootstrapRecord → String → List String
challenge_fields r secret =
    "scribe-drop-cloud-run-claim-v1" ∷ secret ∷ r.challenge_id ∷ r.bootstrap_request_id
    ∷ r.execution_handle ∷ r.execution_name ∷ r.job_name ∷ []

abbrev pub challenge_of : Ports → RuntimeBootstrapRecord → String
challenge_of ports r =
    ports.secrets.derive SecretLabel.challenge
      (r.bootstrap_request_id ∷ r.request_digest ∷ r.challenge_id ∷ [])

abbrev pub token_of : RuntimeSecretDeriver → String → String → String → String
token_of secrets request claim_digest session_id =
    secrets.derive SecretLabel.session (request ∷ claim_digest ∷ session_id ∷ [])

unfoldable pub bootstrap_response : Ports → RuntimeBootstrapRecord → Program
bootstrap_response ports r =
    if not (ports.secrets.hash (challenge_of ports r) is r.challenge_hash)
    then Program.failed ErrorCode.bootstrap_conflict
    else Program.done (
        Response.bootstrapped record {
          challenge = challenge_of ports r;
          challenge_id = r.challenge_id;
          expires_at = r.challenge_expires_at;
        })

unfoldable pub require_context : String → (RuntimeAttemptContext → Program) → Program
require_context handle go = Program.get_attempt handle λ found. elim found [
  | none ↦ Program.failed ErrorCode.execution_not_found
  | some context ↦ go context
]

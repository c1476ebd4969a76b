-- ===== src/Runtime/System/Tests.antt =====
-- A bootstrap and a claim of apps/orchestrator/src/cloud-run-runtime-service.ts, run to their ends.
use scribe_drop.Common.{ℕ, zero, suc, ◌≡◌, refl, true, false, List, [], ◌∷◌, ◌++◌, none, some}
use scribe_drop.Common.Assoc.{lookup, put}
use scribe_drop.Common.Texts.{all_codes, text_length}
use scribe_drop.Controller.Contracts.{Environment}
use scribe_drop.Controller.Record.{at}
use scribe_drop.Runtime.Record.{AttemptStatus, RuntimeAttemptContext}
use scribe_drop.Runtime.Store.{
  get_bootstrap, get_attempt, begin_bootstrap, consume_challenge, awaits, consume_found,
  consume_unclaimed, claimed_record, with_status,
}
use scribe_drop.Runtime.Guards.{
  VerifiedGoogleIdentity, ControllerExecutionReadback, CloudRunRuntimeConfiguration, RuntimeRequest,
  require_google_identity, require_runtime_identity, require_readback, reads_back, is_subject,
}
use scribe_drop.Runtime.Service.Base.{
  BootstrapRequest, ClaimRequest, ClaimResponse, Response, Program, Ports, RuntimeSecretDeriver,
  RuntimeClaimCapabilities, bootstrap_response, require_context, challenge_fields,
}
use scribe_drop.Runtime.Service.Bootstrap.{bootstrap, bootstrap_new, new_bootstrap, begun}
use scribe_drop.Runtime.Service.Claim.{
  claim, claim_known, claim_signed, claim_input, consumed, session_response, signature_valid,
}
use scribe_drop.Runtime.System.{
  Answers, answering, RuntimeSystem, Reach, advance, a_bootstrap, a_claim,
}
use scribe_drop.Runtime.System.Tokens.{Held}
use scribe_drop.Runtime.System.Sessions.{answered-Held}

abbrev configuration : CloudRunRuntimeConfiguration
configuration = record {
  challenge_lifetime_ms = 1000;
  clock_skew_ms = 10;
  environment = Environment.staging;
  identity_audience = "audience";
  identity_issuer = "issuer";
  runtime_service_account = "account";
  session_lifetime_ms = 5000;
}

abbrev identity : VerifiedGoogleIdentity
identity = record {
  audience = "audience";
  expires_at = at 9000;
  issued_at = at 100;
  issuer = "issuer";
  service_account_email = "account";
  subject_id = "1234567";
}

abbrev readback : ControllerExecutionReadback
readback = record {
  active_execution_count = 1;
  controller_version = 3;
  environment = Environment.staging;
  execution_handle = "handle";
  execution_name = "execution";
  job_name = "job name";
  manifest_matches = true;
  policy_id = "policy";
  retried_count = 0;
  runtime_service_account = "account";
  state = "running";
  task_count = 1;
}

abbrev capabilities : RuntimeClaimCapabilities
capabilities = record { results = "results"; source = "source" }

abbrev answers : Answers
answers = record {
  verify_identity = λ token audience. some identity;
  read_execution = λ handle. some readback;
  issue = λ claim context expires. capabilities;
}

abbrev secrets : RuntimeSecretDeriver
secrets = record { derive = λ label fields. "secret"; hash = λ text. "hash" }

abbrev ports : Ports
ports = record {
  secrets = secrets;
  encode = λ text. [];
  digest_bootstrap = λ request. "bootstrap digest";
  digest_claim = λ request. "claim digest";
  digest_session = λ request. "event digest";
  digest_key = λ key. "key digest";
  verify_identity = λ token audience. none;
  read_execution = λ handle. none;
  verify_signature = λ key message signature. true;
  issue = λ claim context expires. capabilities;
}

abbrev runtime : RuntimeRequest
runtime = record {
  environment = Environment.staging;
  execution_handle = "handle";
  execution_name = "execution";
  job_name = "job name";
  policy_id = "policy";
}

abbrev bootstrap_request : BootstrapRequest
bootstrap_request = record {
  runtime = runtime;
  bootstrap_request_id = "request";
  identity_token = "token";
  public_key = "key";
}

abbrev claim_request : ClaimRequest
claim_request = record {
  runtime = runtime;
  bootstrap_request_id = "request";
  challenge_id = "challenge";
  signature = "signature";
}

abbrev context : RuntimeAttemptContext
context = record {
  environment = Environment.staging;
  execution_handle = "handle";
  job_id = "job";
  attempt_id = "attempt";
  owner_hash = "owner";
  source_etag = "etag";
  source_key = "key";
  source_size_bytes = 1000;
  cancel_requested = false;
  status = AttemptStatus.pending_bootstrap;
}

abbrev beginning : RuntimeSystem
beginning = record {
  store = record { attempts = ("handle", context) ∷ []; bootstraps = []; events = [] };
  threads = [];
}

-- The method called last makes its next calls.
abbrev next_turn : RuntimeSystem → List Program → RuntimeSystem
next_turn u [] = u
next_turn u (p ∷ ps) = record {
  store = (advance u.store p).0;
  threads = (advance u.store p).1 ∷ ps;
}

abbrev turns : ℕ → RuntimeSystem → RuntimeSystem
turns zero u = u
turns (suc n) u = turns n (next_turn u u.threads)

next_turn-Reach :
    (u : RuntimeSystem) (ps : List Program)
    → u.threads ≡ ps
    → Reach configuration ports u
    → Reach configuration ports (next_turn u ps)
next_turn-Reach u [] e r = r
next_turn-Reach u (p ∷ ps) e r = Reach.turn [] p ps r e

turns-Reach :
    (n : ℕ) (u : RuntimeSystem)
    → Reach configuration ports u
    → Reach configuration ports (turns n u)
turns-Reach zero u r = r
turns-Reach (suc n) u r = turns-Reach n (next_turn u u.threads) (next_turn-Reach u u.threads refl r)

bootstrap_called : RuntimeSystem
bootstrap_called = record beginning {
  threads =
      bootstrap configuration (answering ports answers) 500 "challenge" bootstrap_request ∷ [];
}

bootstrapped : RuntimeSystem
unfolding bootstrap_called
bootstrapped = turns 3 bootstrap_called

claim_called : RuntimeSystem
unfolding bootstrapped
claim_called = record bootstrapped {
  threads =
      claim configuration (answering ports answers) 700 "session" claim_request
      ∷ bootstrapped.threads;
}

claimed : RuntimeSystem
unfolding claim_called
claimed = turns 3 claim_called

bootstrapped-Reach : Reach configuration ports bootstrapped
unfolding bootstrapped bootstrap_called
bootstrapped-Reach = turns-Reach 3 bootstrap_called (
    Reach.call (bootstrap configuration (answering ports answers) 500 "challenge" bootstrap_request)
      (Reach.start beginning refl refl)
      (a_bootstrap answers 500 "challenge" bootstrap_request
        (bootstrap configuration (answering ports answers) 500 "challenge" bootstrap_request) refl))

claimed-Reach : Reach configuration ports claimed
unfolding claimed claim_called
claimed-Reach = turns-Reach 3 claim_called (
    Reach.call (claim configuration (answering ports answers) 700 "session" claim_request)
      bootstrapped-Reach
      (a_claim answers 700 "session" claim_request
        (claim configuration (answering ports answers) 700 "session" claim_request) refl))

abbrev response : ClaimResponse
response = record {
  attempt_id = "attempt";
  job_id = "job";
  capabilities = capabilities;
  expires_at = at 5700;
  session_id = "session";
  token = "secret";
}

claimed_threads :
    claimed.threads ≡ [] ++ (Program.done (Response.claimed response) ∷ bootstrapped.threads)
unfolding claimed claim_called bootstrapped bootstrap_called bootstrap bootstrap_new new_bootstrap
    begun bootstrap_response require_context require_google_identity require_runtime_identity
    require_readback reads_back is_subject all_codes text_length get_bootstrap get_attempt
    begin_bootstrap awaits consume_challenge consume_found consume_unclaimed claimed_record
    with_status claim claim_known claim_signed claim_input consumed session_response signature_valid
    challenge_fields lookup put
claimed_threads = refl

answered-Held_example : Held ports claimed.store response
answered-Held_example =
    answered-Held configuration ports claimed [] response bootstrapped.threads claimed-Reach
      claimed_threads

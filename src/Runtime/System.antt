-- ===== src/Runtime/System.antt =====
-- Any number of methods of apps/orchestrator/src/cloud-run-runtime-service.ts in progress over one store.
pub mod Growth
pub mod Tokens
pub mod Turns
pub mod Methods
pub mod Sessions
pub mod Tests
use scribe_drop.Common.{ℕ, ◌≡◌, String, List, [], ◌∷◌, ◌++◌, Option}
use scribe_drop.Runtime.Record.{RuntimeAttemptContext}
use scribe_drop.Runtime.Store.{
  RuntimeStore, get_bootstrap, get_attempt, begin_bootstrap, consume_challenge, apply_session_event,
}
use scribe_drop.Runtime.Guards.{
  VerifiedGoogleIdentity, ControllerExecutionReadback, CloudRunRuntimeConfiguration,
}
use scribe_drop.Controller.Record.{Timestamp}
use scribe_drop.Runtime.Service.Base.{
  BootstrapRequest, ClaimRequest, SessionRequest, RuntimeClaimCapabilities, Ports, Program,
}
use scribe_drop.Runtime.Service.Bootstrap.{bootstrap}
use scribe_drop.Runtime.Service.Claim.{claim}
use scribe_drop.Runtime.Service.Report.{report}

-- What others answer differently at different times.
pub record Answers : Type 0 where
  pub verify_identity : String → String → Option VerifiedGoogleIdentity
  pub read_execution : String → Option ControllerExecutionReadback
  pub issue : String → RuntimeAttemptContext → Timestamp → RuntimeClaimCapabilities

abbrev pub answering : Ports → Answers → Ports
answering ports a = record ports {
  verify_identity = a.verify_identity;
  read_execution = a.read_execution;
  issue = a.issue;
}

-- The methods in progress, those that have ended included.
pub record RuntimeSystem : Type 0 where
  pub store : RuntimeStore
  pub threads : List Program

-- The next call of a method.
abbrev pub advance : RuntimeStore → Program → RuntimeStore × Program
advance s (Program.done response) = (s, Program.done response)
advance s (Program.failed code) = (s, Program.failed code)
advance s (Program.get_bootstrap id go) = (s, go (get_bootstrap s id))
advance s (Program.get_attempt handle go) = (s, go (get_attempt s handle))
advance s (Program.begin_bootstrap context r go) =
    ((begin_bootstrap s context r).0, go (begin_bootstrap s context r).1)
advance s (Program.consume_challenge i go) =
    ((consume_challenge s i).0, go (consume_challenge s i).1)
advance s (Program.apply_session_event i go) =
    ((apply_session_event s i).0, go (apply_session_event s i).1)
advance s (Program.finalize context request p) = (s, p)
advance s (Program.schedule_cleanup environment handle p) = (s, p)

-- A method as it is called: the time, the new identifier and the answers may be any.
pub data Method (c : CloudRunRuntimeConfiguration) (ports : Ports) : Program → Type 0 where
  a_bootstrap :
      (a : Answers) (now : ℕ) (challenge_id : String) (request : BootstrapRequest) (p : Program)
      → p ≡ bootstrap c (answering ports a) now challenge_id request
      → Method c ports p
  a_claim :
      (a : Answers) (now : ℕ) (session_id : String) (request : ClaimRequest) (p : Program)
      → p ≡ claim c (answering ports a) now session_id request
      → Method c ports p
  a_report :
      (a : Answers) (now : ℕ) (request : SessionRequest) (p : Program)
      → p ≡ report (answering ports a) now request
      → Method c ports p

-- From a store without bootstraps: a method is called, or one that is in progress makes its next call.
pub data Reach (c : CloudRunRuntimeConfiguration) (ports : Ports) : RuntimeSystem → Type 0 where
  start : (u : RuntimeSystem) → u.store.bootstraps ≡ [] → u.threads ≡ [] → Reach c ports u
  call :
      {u : RuntimeSystem} (p : Program)
      → Reach c ports u
      → Method c ports p
      → Reach c ports (record u { threads = p ∷ u.threads })
  turn :
      {u : RuntimeSystem} (before : List Program) (p : Program) (after : List Program)
      → Reach c ports u
      → u.threads ≡ before ++ (p ∷ after)
      → Reach c ports record {
        store = (advance u.store p).0;
        threads = before ++ ((advance u.store p).1 ∷ after);
      }

-- ===== src/Controller/System.antt =====
-- The controller at work: threads, each at some point of its program, over one store. A step answers the
-- call of one thread. The store answers as apps/gpu-controller/src/control-store.ts does; the clock and
-- the provider may answer anything. The log keeps the calls, newest first, with the request's handle.
use scribe_drop.Common.{
  ℕ, suc, String, Bool, false, ◌≡◌, List, [], ◌∷◌, ◌++◌, Option, none, some, ◌is◌, if◌then◌else◌,
}
use scribe_drop.Controller.Contracts.{Environment, Request, Response}
use scribe_drop.Controller.Store.{
  ControlStore, admit_create, claim_request, compare_and_set, get, list_unclean,
}
use scribe_drop.Controller.Program.{Call, Answer, Program, done, ask, ◌>>=◌, Controller}
use scribe_drop.Controller.Service.Execute.{execute}
use scribe_drop.Controller.Service.Cleanup.{reap}
use scribe_drop.Controller.Service.Attest.{AttestationRequest, Attestation, attest}

pub data Outcome : Type 0 where
  responded : Response → Outcome
  reaped : ℕ → Outcome
  attested : Attestation → Outcome

-- The owner is the handle that a request names; the reaper has none.
pub record Thread : Type 0 where
  pub owner : Option String
  pub program : Program Outcome

pub record System : Type 0 where
  pub store : ControlStore
  pub threads : List Thread
  pub log : List (Option String × Call)

-- The answers that a call can get over a store, and the store behind it.
abbrev pub Answers : ControlStore → (c : Call) → Answer c → ControlStore → Type 0
Answers s (Call.admit_create i) a s' = (a ≡ (admit_create s i).1) × (s' ≡ (admit_create s i).0)
Answers s (Call.claim_request i) a s' = (a ≡ (claim_request s i).1) × (s' ≡ (claim_request s i).0)
Answers s (Call.compare_and_set v r) a s' =
    (a ≡ (compare_and_set s v r).1) × (s' ≡ (compare_and_set s v r).0)
Answers s (Call.get h) a s' = (a ≡ get s h) × (s' ≡ s)
Answers s (Call.list_unclean e) a s' = (a ≡ list_unclean s e) × (s' ≡ s)
Answers s _ a s' = s' ≡ s

abbrev pub request_thread : Controller → Request → String → Thread
request_thread c request digest = record {
  owner = some request.execution_handle;
  program = execute c request digest >>= λ r. done (Outcome.responded r);
}

abbrev pub reaper_thread : Controller → Environment → Thread
reaper_thread c environment = record {
  owner = none;
  program = reap c environment >>= λ n. done (Outcome.reaped n);
}

abbrev pub attestation_thread : Controller → AttestationRequest → Thread
attestation_thread c request = record {
  owner = some request.execution_handle;
  program = attest c request >>= λ a. done (Outcome.attested a);
}

pub data Step (c : Controller) (s : System) : System → Type 0 where
  arrive :
      (request : Request) (digest : String) (t : System)
      → t ≡ record s { threads = request_thread c request digest ∷ s.threads }
      → Step c s t
  wake :
      (environment : Environment) (t : System)
      → t ≡ record s { threads = reaper_thread c environment ∷ s.threads }
      → Step c s t
  inquire :
      (request : AttestationRequest) (t : System)
      → t ≡ record s { threads = attestation_thread c request ∷ s.threads }
      → Step c s t
  advance :
      (before after : List Thread) (owner : Option String) (q : Call)
      (k : Answer q → Program Outcome) (a : Answer q) (store : ControlStore) (t : System)
      → s.threads ≡ before ++ record { owner = owner; program = ask q k } ∷ after
      → Answers s.store q a store
      → t ≡ record {
        store = store;
        threads = before ++ record { owner = owner; program = k a } ∷ after;
        log = (owner, q) ∷ s.log;
      }
      → Step c s t

-- What a store may have become, from an empty one with these authorizations.
abbrev pub idle : ControlStore → System
idle store = record { store = store; threads = []; log = [] }

pub data Reach (c : Controller) (s : System) : System → Type 0 where
  here : Reach c s s
  next : {t u : System} → Reach c s t → Step c t u → Reach c s u

abbrev pub owned_by : String → Option String → Bool
owned_by h none = false
owned_by h (some owner) = owner is h

-- How often the log asks the provider for a job whose manifest names the handle.
abbrev pub creates_job : String → Call → Bool
creates_job h (Call.create_job j m) = m.execution_handle is h
creates_job h _ = false

-- Whether the log's entry runs a job for a request that names the handle.
abbrev pub runs_job : String → Option String → Call → Bool
runs_job h owner (Call.run_job j) = owned_by h owner
runs_job h owner _ = false

abbrev pub jobs_created : String → List (Option String × Call) → ℕ
jobs_created h [] = 0
jobs_created h ((owner, q) ∷ log) =
    let rest = jobs_created h log in if creates_job h q then suc rest else rest

abbrev pub jobs_run : String → List (Option String × Call) → ℕ
jobs_run h [] = 0
jobs_run h ((owner, q) ∷ log) =
    let rest = jobs_run h log in if runs_job h owner q then suc rest else rest

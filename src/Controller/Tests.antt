-- ===== src/Controller/Tests.antt =====
-- Runs of the controller of apps/gpu-controller/src on concrete requests.
use scribe_drop.Common.{length, ℕ, ◌≤◌, ◌≡◌, refl, false, List, [], ◌∷◌, none, some}
use scribe_drop.Common.Assoc.{lookup, put}
use scribe_drop.Controller.Contracts.{Environment, Action, Request}
use scribe_drop.Controller.Provider.{
  PolicyConfiguration, Mutation, JobRead, OperationRead, ExecutionList, derive_job_id,
  create_fixed_job_manifest,
}
use scribe_drop.Controller.Record.{at, ControlRecord, ControlState}
use scribe_drop.Controller.Store.{
  ControlStore, SyntheticAuthorization, RequestIdentity, AdmitCreateInput, admit_create,
  compare_and_set, get, claim_request, existing, sum_reserved,
}
use scribe_drop.Controller.Persistence.{Continues, records_persist}
use scribe_drop.Controller.Budget.{never_over_budget}
use scribe_drop.Controller.Store.Defaults.{
  claim_accepted_of, default_store, default_synthetic_authorizations-closed,
}
use scribe_drop.Controller.Store.Outcomes.{accepted_of}
use scribe_drop.Controller.Store.Results.{
  Admitted, admit_create-Admitted, Replacement, compare_and_set-Replacement,
}
use scribe_drop.Controller.Program.{
  Failure, fail, Controller, ◌>>=◌, try_update, update, expected_manifest,
}
use scribe_drop.Controller.Service.Execute.{execute, claim_input, admission_input}
use scribe_drop.Controller.Service.Reconcile.{send_create}
use scribe_drop.Controller.System.{
  System, Reach, idle, request_thread, arrive, wake, reaper_thread, here, next, jobs_created,
  jobs_run,
}
use scribe_drop.Controller.Schedule.{Replies, play, play-Reach}
use scribe_drop.Controller.Guarantees.{
  provider_calls_bounded, record_accounts_for_calls, never_out_of_fuel,
}

abbrev configuration : PolicyConfiguration
configuration = record {
  environment = Environment.staging;
  project_id = "project";
  image_digest = "image";
  runtime_service_account = "worker";
  orchestrator_origin = "https://orchestrator/";
  result_host = "results";
  source_host = "sources";
}

abbrev controller : Controller
controller = record {
  environment = Environment.staging;
  manifest_configuration = configuration;
  digest = λ text. 18 ∷ 52 ∷ [];
  parse = λ c. some c;
}

abbrev authorization : SyntheticAuthorization
authorization = record {
  environment = Environment.staging;
  epoch = "epoch";
  valid_until = at 1000000;
  max_executions = 2;
  max_worst_case_jpy = 500;
  max_requests_per_minute = 10;
  worst_case_jpy_per_execution = 200;
}

abbrev store : ControlStore
store = record { authorizations = λ _. authorization; records = []; requests = [] }

abbrev request : Request
request = record {
  action = Action.create;
  environment = Environment.staging;
  execution_handle = "handle";
  expected_version = 0;
  request_id = "request";
}

abbrev after_arrival : System
after_arrival = record (idle store) { threads = request_thread controller request "digest" ∷ [] }

arrived : Reach controller (idle store) after_arrival
arrived = next here (arrive request "digest" after_arrival refl)

-- The provider accepts every change, and its reads are unavailable.
abbrev accepting : ℕ → Replies
accepting now = record {
  time = now;
  mutation = Mutation.accepted "operation";
  job = JobRead.unavailable;
  operation = OperationRead.pending;
  executions = ExecutionList.unavailable;
}

-- The request's thread, from its clock to its response.
abbrev schedule : List (ℕ × Replies)
schedule =
    (0, accepting 1000)
    ∷ (0, accepting 1000)
    ∷ (0, accepting 1001)
    ∷ (0, accepting 1001)
    ∷ (0, accepting 1002)
    ∷ (0, accepting 1003)
    ∷ (0, accepting 1003)
    ∷ []

created : System
created = play after_arrival schedule

created-Reach : Reach controller (idle store) created
unfolding created
created-Reach = play-Reach controller (idle store) after_arrival schedule arrived

created_once : jobs_created "handle" created.log ≡ 1
unfolding created play execute send_create ◌>>=◌ try_update expected_manifest compare_and_set
    admit_create create_fixed_job_manifest lookup put admission_input derive_job_id update
created_once = refl

provider_calls_bounded_example :
    (jobs_created "handle" created.log ≤ 2) × (jobs_run "handle" created.log ≤ 1)
provider_calls_bounded_example =
    provider_calls_bounded controller store created "handle" refl created-Reach

never_out_of_fuel_example :
    ¬ (created.threads ≡ record { owner = none; program = fail Failure.out_of_fuel } ∷ [])
never_out_of_fuel_example = never_out_of_fuel controller store created [] [] none refl created-Reach

-- The record that the request leaves.
abbrev left : ControlRecord
left = record {
  bootstrap_request_id = "request";
  environment = Environment.staging;
  execution_handle = "handle";
  job_id = "sd-stg-1234";
  state = ControlState.job_pending;
  version = 3;
  create_attempts = 1;
  run_intent = false;
  cancel_intent = false;
  cleanup_intent = false;
  job = none;
  execution = none;
  operation_ref = some "operation";
  error_code = none;
  reserved_worst_case_jpy = 200;
  created_at = at 1000;
  updated_at = at 1003;
  provisioning_deadline = at 301000;
  expires_at = at 2678401000;
}

left_by_request : get created.store "handle" ≡ some left
unfolding created play execute send_create ◌>>=◌ try_update expected_manifest compare_and_set
    admit_create create_fixed_job_manifest lookup put admission_input derive_job_id update get
left_by_request = refl

record_accounts_for_calls_example :
    (jobs_created "handle" created.log ≤ 1) × (1 ≤ 2) × (jobs_run "handle" created.log ≤ 0)
record_accounts_for_calls_example =
    record_accounts_for_calls controller store created "handle" left refl created-Reach
      left_by_request

abbrev identity : RequestIdentity
identity = record {
  request_id = "request";
  digest = "digest";
  environment = Environment.staging;
  execution_handle = "handle";
  action = Action.create;
}

abbrev input : AdmitCreateInput
input = record {
  identity = identity;
  job_id = "sd-stg-1234";
  now = at 1000;
  provisioning_deadline = at 301000;
  record_expires_at = at 2678401000;
}

admit_create-Admitted_example : Admitted store input "handle" (admit_create store input)
admit_create-Admitted_example = admit_create-Admitted store input "handle"

compare_and_set-Replacement_example :
    Replacement created.store 3 left "handle" (compare_and_set created.store 3 left)
compare_and_set-Replacement_example = compare_and_set-Replacement created.store 3 left "handle"

-- The reaper, long after the record's deadline.
abbrev woken : System
woken = record created { threads = reaper_thread controller Environment.staging ∷ created.threads }

reaped : System
unfolding created
reaped = play woken (
    (0, accepting 400000)
    ∷ (0, accepting 400000)
    ∷ (0, accepting 400001)
    ∷ (0, accepting 400001)
    ∷ [])

reaped-Reach : Reach controller created reaped
unfolding reaped
reaped-Reach =
    play-Reach controller created woken
      ((0, accepting 400000)
        ∷ (0, accepting 400000)
        ∷ (0, accepting 400001)
        ∷ (0, accepting 400001)
        ∷ [])
      (next here (wake Environment.staging woken refl))

records_persist_example :
    (y : ControlRecord) × (get reaped.store "handle" ≡ some y) × Continues left y
records_persist_example =
    records_persist controller created reaped "handle" left left_by_request reaped-Reach

never_over_budget_example :
    (sum_reserved (existing Environment.staging created.store) ≤ 500)
    × (length (existing Environment.staging created.store) ≤ 2)
never_over_budget_example =
    never_over_budget controller store created Environment.staging refl created-Reach

default_synthetic_authorizations-closed_example :
    ((admit_create (default_store [] []) input).0 ≡ default_store [] [])
    × (accepted_of (admit_create (default_store [] []) input).1 ≡ none)
    × ((claim_request (default_store [] []) (claim_input request "digest" 1000)).0
        ≡ default_store [] [])
    × (claim_accepted_of (claim_request (default_store [] []) (claim_input request "digest" 1000)).1
        ≡ none)
default_synthetic_authorizations-closed_example =
    default_synthetic_authorizations-closed [] [] input (claim_input request "digest" 1000)

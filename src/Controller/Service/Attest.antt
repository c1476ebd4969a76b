-- ===== src/Controller/Service/Attest.antt =====
-- Of apps/gpu-controller/src/controller-service.ts: the attestation of a live execution.
use Prim.Native.Char.{code}
use scribe_drop.Common.{
  ℕ, String, Bool, true, false, ◌&&◌, ◌||◌, ◌==◌, List, [], ◌∷◌, Option, none, some, ◌is◌,
  if◌then◌else◌,
}
use scribe_drop.Controller.Contracts.{Environment, same_environment}
use scribe_drop.Controller.Provider.{
  JobManifest, ProviderJob, JobRead, ExecutionStatus, ProviderExecution, ExecutionList,
  manifests_match, policy_id,
}
use scribe_drop.Controller.Record.{ControlState, ControlRecord}
use scribe_drop.Controller.Program.{Call, Program, done, ask, ◌>>=◌, Controller, expected_manifest}

pub record AttestationRequest : Type 0 where
  pub environment : Environment
  pub execution_handle : String
  pub request_id : String

-- `taskCount` and `retriedCount` are fixed by the provider's type.
pub record LiveAttestation : Type 0 where
  pub controller_version : ℕ
  pub environment : Environment
  pub execution_handle : String
  pub execution_name : String
  pub job_name : String
  pub manifest_matches : Bool
  pub policy : String
  pub runtime_service_account : String
  pub state : ExecutionStatus

pub data Attestation : Type 0 where
  found : LiveAttestation → Attestation
  not_found unavailable invariant_failure : Attestation

unfoldable pub has_slash : String → Bool
has_slash String.[] = false
has_slash (String.◌∷◌ c s) = (code c == b'/') || has_slash s

-- `ref.split("/").at(-1)`, which is always there.
unfoldable pub last_segment : String → String
unfolding has_slash
last_segment String.[] = String.[]
last_segment (String.◌∷◌ c s) =
    let rest = last_segment s in
    if has_slash s then rest else if code c == b'/' then s else String.◌∷◌ c s

unfoldable pub stored_execution_matches :
    ControlState → Option ProviderExecution → ProviderExecution → Bool
stored_execution_matches ControlState.execution_pending none e = true
stored_execution_matches ControlState.running (some stored) e = stored.uid is e.uid
stored_execution_matches _ _ _ = false

abbrev pub same_job_uid : Option ProviderJob → ProviderJob → Bool
same_job_uid none job = false
same_job_uid (some stored) job = stored.uid is job.uid

unfoldable pub stored_resources_match : ControlRecord → ProviderJob → ProviderExecution → Bool
unfolding stored_execution_matches
stored_resources_match r job e =
    r.run_intent && (same_job_uid r.job job && stored_execution_matches r.state r.execution e)

unfoldable pub live_attestation :
    Controller → ControlRecord → ProviderJob → ProviderExecution → JobManifest → LiveAttestation
unfolding stored_resources_match
live_attestation c r job e expected = record {
  controller_version = r.version;
  environment = r.environment;
  execution_handle = r.execution_handle;
  execution_name = last_segment e.ref;
  job_name = last_segment job.ref;
  manifest_matches = stored_resources_match r job e && manifests_match expected job.manifest;
  policy = policy_id;
  runtime_service_account = c.manifest_configuration.runtime_service_account;
  state = e.status;
}

unfoldable pub judge :
    Controller → ControlRecord → ProviderJob → List ProviderExecution → Program Attestation
unfolding live_attestation
judge c r job (e ∷ []) =
    if e.job_ref is job.ref
    then (expected_manifest c r >>= λ expected.
        done (Attestation.found (live_attestation c r job e expected)))
    else done Attestation.invariant_failure
judge c r job _ = done Attestation.invariant_failure

unfoldable pub judge_reads :
    Controller → ControlRecord → JobRead → ExecutionList → Program Attestation
unfolding judge
judge_reads c r JobRead.unavailable _ = done Attestation.unavailable
judge_reads c r _ ExecutionList.unavailable = done Attestation.unavailable
judge_reads c r JobRead.not_found _ = done Attestation.not_found
judge_reads c r (JobRead.found job) (ExecutionList.found executions) = judge c r job executions

-- The two reads go out together; the model makes them one after the other.
unfoldable pub attest_stored :
    Controller → AttestationRequest → Option ControlRecord → Program Attestation
unfolding judge_reads
attest_stored c request none = done Attestation.not_found
attest_stored c request (some r) =
    if same_environment r.environment request.environment
    then (ask (Call.get_job r.job_id)
        λ job. ask (Call.list_executions r.job_id) λ executions. judge_reads c r job executions)
    else done Attestation.not_found

unfoldable pub attest : Controller → AttestationRequest → Program Attestation
unfolding attest_stored
attest c request =
    if same_environment request.environment c.environment
    then ask (Call.get request.execution_handle) (attest_stored c request)
    else done Attestation.not_found

-- ===== src/Controller/Program.antt =====
-- What a method of apps/gpu-controller/src/controller-service.ts does: it calls the clock, the store or
-- the provider, waits for the answer, and goes on. Between a call and its answer anything else may run.
use scribe_drop.Common.{ℕ, String, Bool, true, false, List, Option, none, some}
use scribe_drop.Controller.Contracts.{Environment}
use scribe_drop.Controller.Provider.{
  PolicyConfiguration, JobManifest, Mutation, ProviderJob, JobRead, ProviderExecution,
  ExecutionList, OperationRead, create_fixed_job_manifest, derive_job_id,
}
use scribe_drop.Controller.Record.{ControlRecord, Changes, apply_changes}
use scribe_drop.Controller.Store.{
  AdmitCreateInput, AdmitCreateResult, ClaimRequestInput, ClaimRequestResult,
}

pub data Call : Type 0 where
  now : Call
  admit_create : AdmitCreateInput → Call
  claim_request : ClaimRequestInput → Call
  compare_and_set : ℕ → ControlRecord → Call
  get : String → Call
  list_unclean : Environment → Call
  cancel_execution delete_execution : ProviderExecution → Call
  create_job : String → JobManifest → Call
  delete_job run_job : ProviderJob → Call
  get_job get_operation list_executions : String → Call

-- A clock's answer is in milliseconds since 1970.
abbrev pub Answer : Call → Type 0
Answer Call.now = ℕ
Answer (Call.admit_create i) = AdmitCreateResult
Answer (Call.claim_request i) = ClaimRequestResult
Answer (Call.compare_and_set v r) = Bool
Answer (Call.get h) = Option ControlRecord
Answer (Call.list_unclean e) = List ControlRecord
Answer (Call.cancel_execution e) = Mutation
Answer (Call.delete_execution e) = Mutation
Answer (Call.create_job j m) = Mutation
Answer (Call.delete_job j) = Mutation
Answer (Call.run_job j) = Mutation
Answer (Call.get_job j) = JobRead
Answer (Call.get_operation o) = OperationRead
Answer (Call.list_executions j) = ExecutionList

pub data Failure : Type 0 where
  record_disappeared invalid_configuration out_of_fuel : Failure

pub data Program (A : Type 0) : Type 0 where
  done : A → Program A
  fail : Failure → Program A
  ask : (c : Call) → (Answer c → Program A) → Program A

infixl 5 ◌>>=◌
unfoldable pub ◌>>=◌ : {A B : Type 0} → Program A → (A → Program B) → Program B
done a >>= f = f a
fail e >>= f = fail e
ask c k >>= f = ask c (λ a. k a >>= f)

abbrev pub call : (c : Call) → Program (Answer c)
call c = ask c (λ a. done a)

-- The fields of `GpuControllerService` that do not change, with what it takes from the platform: the
-- digest of a text and the schema of the configuration.
pub record Controller : Type 0 where
  pub environment : Environment
  pub manifest_configuration : PolicyConfiguration
  pub digest : String → List ℕ
  pub parse : PolicyConfiguration → Option PolicyConfiguration

abbrev pub job_id_of : Controller → Environment → String → String
job_id_of c environment handle = derive_job_id c.digest environment handle

unfoldable pub or_throw : Option JobManifest → Program JobManifest
or_throw none = fail Failure.invalid_configuration
or_throw (some manifest) = done manifest

-- `createFixedJobManifest`, with its exception.
unfoldable pub expected_manifest : Controller → ControlRecord → Program JobManifest
unfolding or_throw
expected_manifest c r = or_throw (
    create_fixed_job_manifest c.parse c.manifest_configuration r.execution_handle
      r.bootstrap_request_id)

-- The answer of `#tryUpdate` where the record was not replaced.
unfoldable pub refreshed : Option ControlRecord → Program (Bool × ControlRecord)
refreshed none = fail Failure.record_disappeared
refreshed (some current) = done (false, current)

unfoldable pub try_update : ControlRecord → Changes → Program (Bool × ControlRecord)
unfolding refreshed
try_update r changes = ask Call.now λ now.
    let next = apply_changes r changes now in
    ask (Call.compare_and_set r.version next) λ applied. elim applied [
      | true ↦ done (true, next)
      | false ↦ ask (Call.get r.execution_handle) refreshed
    ]

unfoldable pub update : ControlRecord → Changes → Program ControlRecord
unfolding try_update
update r changes = try_update r changes >>= λ result. done result.1

-- ===== src/Controller/Service/Reconcile.antt =====
-- Of apps/gpu-controller/src/controller-service.ts: how a job is created and, once it is ready, run.
use scribe_drop.Common.{
  ℕ, zero, suc, ◌+◌, String, Bool, true, false, not, ◌&&◌, ◌||◌, [], ◌∷◌, Option, none, some, ltb,
  leb, ◌==◌, if◌then◌else◌,
}
use scribe_drop.Controller.Contracts.{ErrorCode}
use scribe_drop.Controller.Provider.{
  ErrorKind, Mutation, ProviderJob, JobManifest, JobRead, ExecutionList, OperationRead,
  manifests_match,
}
use scribe_drop.Controller.Record.{
  Timestamp, at, written_at, unparsable, ControlState, ControlRecord, Changes, no_changes,
}
use scribe_drop.Controller.Program.{
  Call, Failure, Program, done, fail, ask, ◌>>=◌, Controller, expected_manifest, try_update, update,
}
use scribe_drop.Controller.Service.Executions.{
  error_of_kind, unknown_outcome, handle_execution_list, observe_execution, record_run_mutation,
}

abbrev pub provisioning_window_ms : ℕ
provisioning_window_ms = 300000

abbrev pub create_reconciliation_delay_ms : ℕ
create_reconciliation_delay_ms = 5000

-- What `getOperation` says of a failure.
abbrev pub failure_of : OperationRead → Option ErrorKind
failure_of (OperationRead.failed kind) = some kind
failure_of _ = none

unfoldable pub operation_failure : Option String → Program (Option ErrorKind)
operation_failure none = done none
operation_failure (some operation) =
    ask (Call.get_operation operation) λ read. done (failure_of read)

-- `now - Date.parse(t) >= delay` and `now < Date.parse(t)`, false where it is not a number.
abbrev pub elapsed : ℕ → Timestamp → ℕ → Bool
elapsed now (at t) delay = leb (t + delay) now
elapsed now (written_at t utc text) delay = leb (t + delay) now
elapsed now (unparsable text) delay = false

abbrev pub now_before : ℕ → Timestamp → Bool
now_before now (at t) = ltb now t
now_before now (written_at t utc text) = ltb now t
now_before now (unparsable text) = false

unfoldable pub unknown_create : ControlRecord → Program ControlRecord
unknown_create r = update r (record no_changes {
  state = some ControlState.create_unknown;
  error_code = some (some ErrorCode.unknown_outcome);
})

-- A creation that may be sent again is sent, if the window for it is still open. `send` is
-- `#sendCreate`.
unfoldable pub send_in_window :
    (ControlRecord → Program ControlRecord) → ControlRecord → Program ControlRecord
unfolding unknown_create
send_in_window send r =
    ask Call.now λ now. if now_before now r.provisioning_deadline then send r else unknown_create r

abbrev pub may_send : ControlRecord → ℕ → Bool
may_send r now =
    ltb r.create_attempts 2
    && (r.create_attempts == 0 || elapsed now r.created_at create_reconciliation_delay_ms)

-- The provider has no such job.
unfoldable pub job_missing :
    (ControlRecord → Program ControlRecord)
    → ControlRecord
    → Option ErrorKind
    → Program ControlRecord
unfolding unknown_create send_in_window
job_missing send r (some kind) = update r (record no_changes {
  state = some ControlState.failed;
  error_code = some (some (error_of_kind kind));
})
job_missing send r none =
    ask Call.now λ now. if may_send r now then send_in_window send r else unknown_create r

abbrev pub claiming_run : Changes
claiming_run = record no_changes { state = some ControlState.run_intent; run_intent = some true }

unfoldable pub run_job_of : ControlRecord → Option ProviderJob → Program ControlRecord
run_job_of r none = done r
run_job_of r (some job) = ask (Call.run_job job) (record_run_mutation r)

-- Behind the claim of a run.
unfoldable pub run_claimed : Bool × ControlRecord → Program ControlRecord
unfolding run_job_of
run_claimed (false, current) = done current
run_claimed (true, claimed) = run_job_of claimed claimed.job

unfoldable pub start_run : ControlRecord → Program ControlRecord
unfolding run_claimed
start_run current = try_update current claiming_run >>= run_claimed

-- The job is ready and may be run, unless the provider knows an execution of it.
unfoldable pub run_when_idle : ControlRecord → Program ControlRecord
unfolding start_run
run_when_idle current = ask (Call.list_executions current.job_id) λ executions. elim executions [
  | ExecutionList.unavailable ↦ update current unknown_outcome
  | ExecutionList.found [] ↦ start_run current
  | ExecutionList.found (e ∷ es) ↦ handle_execution_list current (e ∷ es)
]

abbrev pub mismatched : ProviderJob → Changes
mismatched job = record no_changes {
  state = some ControlState.failed;
  job = some (some job);
  cleanup_intent = some true;
  error_code = some (some ErrorCode.resource_drift);
}

abbrev pub seen : ProviderJob → Changes
seen job = record no_changes {
  state = some (if job.ready then ControlState.job_ready else ControlState.job_pending);
  job = some (some job);
  error_code = some none;
}

unfoldable pub run_if_ready : ProviderJob → Bool → ControlRecord → Program ControlRecord
unfolding run_when_idle
run_if_ready job allow_run current =
    if not job.ready || (not allow_run || current.run_intent)
    then done current
    else run_when_idle current

unfoldable pub job_compared :
    ControlRecord → ProviderJob → Bool → JobManifest → Program ControlRecord
unfolding run_if_ready
job_compared r job allow_run expected =
    if not (manifests_match expected job.manifest)
    then update r (mismatched job)
    else (update r (seen job) >>= run_if_ready job allow_run)

unfoldable pub job_found : Controller → ControlRecord → ProviderJob → Bool → Program ControlRecord
unfolding job_compared
job_found c r job allow_run = expected_manifest c r >>= job_compared r job allow_run

unfoldable pub job_read :
    Controller
    → (ControlRecord → Program ControlRecord)
    → ControlRecord
    → Bool
    → Option ErrorKind
    → JobRead
    → Program ControlRecord
unfolding job_missing job_found
job_read c send r allow_run failed JobRead.unavailable = update r unknown_outcome
job_read c send r allow_run failed JobRead.not_found = job_missing send r failed
job_read c send r allow_run failed (JobRead.found job) = job_found c r job allow_run

-- `#reconcileJob` over the `#sendCreate` that it calls.
unfoldable pub reconcile_with :
    Controller
    → (ControlRecord → Program ControlRecord)
    → ControlRecord
    → Bool
    → Program ControlRecord
unfolding operation_failure job_read
reconcile_with c send r allow_run = operation_failure r.operation_ref >>= λ failed.
    ask (Call.get_job r.job_id) (job_read c send r allow_run failed)

-- The provider's answer to a creation. `again` is `#reconcileJob`.
unfoldable pub create_answered :
    (ControlRecord → Program ControlRecord) → ControlRecord → Mutation → Program ControlRecord
create_answered again intent (Mutation.accepted operation) = update intent (record no_changes {
  state = some ControlState.job_pending;
  operation_ref = some (some operation);
  error_code = some none;
})
create_answered again intent Mutation.conflict = again intent
create_answered again intent Mutation.unknown = update intent (record no_changes {
  state = some ControlState.create_unknown;
  error_code = some (some ErrorCode.unknown_outcome);
})
create_answered again intent (Mutation.rejected kind) = update intent (record no_changes {
  state = some ControlState.failed;
  error_code = some (some (error_of_kind kind));
})

-- Behind the claim of a creation.
unfoldable pub create_claimed :
    Controller
    → (ControlRecord → Program ControlRecord)
    → Bool × ControlRecord
    → Program ControlRecord
unfolding create_answered
create_claimed c again (false, current) = done current
create_claimed c again (true, intent) = expected_manifest c intent >>= λ manifest.
    ask (Call.create_job intent.job_id manifest) (create_answered again intent)

abbrev pub claiming_create : ControlRecord → Changes
claiming_create r = record no_changes {
  state = some ControlState.create_intent;
  create_attempts = some (r.create_attempts + 1);
  error_code = some none;
}

-- `#sendCreate`, which through `#reconcileJob` may send once more: fuel bounds how often.
unfoldable pub send_create : Controller → ℕ → ControlRecord → Program ControlRecord
unfolding create_claimed reconcile_with
send_create c zero r = fail Failure.out_of_fuel
send_create c (suc fuel) r =
    try_update r (claiming_create r)
    >>= create_claimed c (λ intent. reconcile_with c (send_create c fuel) intent true)

-- A record is created at most twice, so two rounds are enough.
abbrev pub create_fuel : ℕ
create_fuel = 2

unfoldable pub reconcile_job : Controller → ControlRecord → Bool → Program ControlRecord
reconcile_job c r allow_run = reconcile_with c (send_create c create_fuel) r allow_run

unfoldable pub observe_record : Controller → ControlRecord → Program ControlRecord
observe_record c r = if r.run_intent then observe_execution r else reconcile_job c r false

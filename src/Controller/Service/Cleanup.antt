-- ===== src/Controller/Service/Cleanup.antt =====
-- Of apps/gpu-controller/src/controller-service.ts: the removal of a job with its executions, and the
-- reaper, which removes what is overdue.
use scribe_drop.Common.{ℕ, ◌+◌, Bool, true, false, ◌||◌, List, [], ◌∷◌, none, some, if◌then◌else◌}
use scribe_drop.Controller.Contracts.{Environment, ErrorCode, same_environment}
use scribe_drop.Controller.Provider.{ProviderExecution, ExecutionStatus, ExecutionList, JobRead}
use scribe_drop.Controller.Record.{ControlState, ControlRecord, Changes, no_changes, not_after}
use scribe_drop.Controller.Program.{Call, Program, done, ask, ◌>>=◌, Controller, update}

abbrev pub cleanup_unknown : Changes
cleanup_unknown = record no_changes {
  state = some ControlState.cleanup_pending;
  error_code = some (some ErrorCode.unknown_outcome);
}

abbrev pub is_live : ExecutionStatus → Bool
is_live ExecutionStatus.pending = true
is_live ExecutionStatus.running = true
is_live _ = false

-- The loop over the listed executions.
unfoldable pub remove_all : {A : Type 0} → List ProviderExecution → Program A → Program A
remove_all [] next = next
remove_all (e ∷ es) next =
    let rest = ask (Call.delete_execution e) λ _. remove_all es next in
    if is_live e.status then (ask (Call.cancel_execution e) λ _. rest) else rest

-- The provider shows neither an execution nor the job.
abbrev pub is_gone : ExecutionList → JobRead → Bool
is_gone (ExecutionList.found []) JobRead.not_found = true
is_gone (ExecutionList.found []) _ = false
is_gone _ _ = false

abbrev pub removed : Changes
removed = record no_changes {
  state = some ControlState.cleaned;
  job = some none;
  execution = some none;
  operation_ref = some none;
  error_code = some none;
}

unfoldable pub confirm_gone : ControlRecord → Program ControlRecord
confirm_gone current = ask (Call.list_executions current.job_id) λ executions.
    ask (Call.get_job current.job_id) λ job.
      if is_gone executions job then update current removed else update current cleanup_unknown

unfoldable pub job_found_at_cleanup : ControlRecord → JobRead → Program ControlRecord
unfolding confirm_gone
job_found_at_cleanup current JobRead.unavailable = update current cleanup_unknown
job_found_at_cleanup current (JobRead.found job) =
    ask (Call.delete_job job) λ _. confirm_gone current
job_found_at_cleanup current JobRead.not_found = confirm_gone current

unfoldable pub remove_job : ControlRecord → Program ControlRecord
unfolding job_found_at_cleanup
remove_job current = ask (Call.get_job current.job_id) (job_found_at_cleanup current)

unfoldable pub remove_listed : ControlRecord → ExecutionList → Program ControlRecord
unfolding remove_job
remove_listed current ExecutionList.unavailable = update current cleanup_unknown
remove_listed current (ExecutionList.found executions) = remove_all executions (remove_job current)

unfoldable pub remove_resources : ControlRecord → Program ControlRecord
unfolding remove_listed
remove_resources current = ask (Call.list_executions current.job_id) (remove_listed current)

abbrev pub cleaning : Changes
cleaning = record no_changes {
  state = some ControlState.cleanup_pending;
  cleanup_intent = some true;
}

unfoldable pub cleanup_record : ControlRecord → Program ControlRecord
unfolding remove_resources
cleanup_record r = (if r.cleanup_intent then done r else update r cleaning) >>= remove_resources

unfoldable pub reap_loop : ℕ → List ControlRecord → ℕ → Program ℕ
reap_loop now [] processed = done processed
reap_loop now (r ∷ rs) processed =
    if r.cleanup_intent || not_after r.provisioning_deadline now
    then (cleanup_record r >>= λ _. reap_loop now rs (processed + 1))
    else reap_loop now rs processed

unfoldable pub reap : Controller → Environment → Program ℕ
reap c environment =
    if same_environment environment c.environment
    then (ask Call.now
        λ now. ask (Call.list_unclean environment) λ records. reap_loop now records 0)
    else done 0

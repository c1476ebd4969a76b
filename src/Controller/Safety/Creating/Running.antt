-- ===== src/Controller/Safety/Creating/Running.antt =====
-- A job that was found is run only with the permit of a run that was claimed.
use scribe_drop.Common.{
  ℕ, ◌<◌, ◌≡◌, refl, String, Bool, true, false, not, ◌||◌, [], ◌∷◌, Option, none, some, arith,
}
use scribe_drop.Controller.Provider.{ProviderJob, JobManifest, ExecutionList, manifests_match}
use scribe_drop.Controller.Record.{ControlRecord}
use scribe_drop.Controller.Program.{done, ◌>>=◌, Controller, expected_manifest, try_update, update}
use scribe_drop.Controller.Service.Executions.{unknown_outcome, handle_execution_list}
use scribe_drop.Controller.Service.Reconcile.{
  claiming_run, run_job_of, run_claimed, start_run, run_when_idle, mismatched, seen, run_if_ready,
  job_compared, job_found,
}
use scribe_drop.Controller.Safety.History.{History, Kind}
use scribe_drop.Controller.Safety.Logic.{Safe, Safe-bind, Safe-if}
use scribe_drop.Controller.Safety.Updates.{
  Held, Kept, Tried, NamesHandle, Held-Extends, try_update-Safe, update-Safe,
  expected_manifest-Safe,
}
use scribe_drop.Controller.Safety.Observing.{handle_execution_list-Safe, record_run_mutation-Safe}

module _ (h : String) (mine : Bool) where
  run_job_of-Safe :
      (o : Option ProviderJob) (x : ControlRecord) (H : History) (c r : ℕ)
      → Held h mine H x
      → (mine ≡ true → 0 < r)
      → Safe h mine (Kept h mine) H c r (run_job_of x o)
  unfolding run_job_of
  run_job_of-Safe none x H c r held permit = held
  run_job_of-Safe (some job) x H c r held permit = (
    permit,
    λ a H' c' r' ext eff.
        record_run_mutation-Safe h mine a x H' c' r' (Held-Extends h mine H H' x ext held),
  )

  run_claimed-Safe :
      (result : Bool × ControlRecord) (x : ControlRecord) (H : History) (c r : ℕ)
      → Tried h mine Kind.claims_run x claiming_run result H c r
      → Safe h mine (Kept h mine) H c r (run_claimed result)
  unfolding run_claimed
  run_claimed-Safe (false, y) x H c r post = post.0
  run_claimed-Safe (true, y) x H c r (held, grant, _) =
      run_job_of-Safe y.job y H c r held (λ m. grant refl (held.1 m))

  start_run-Safe :
      (x : ControlRecord) (H : History) (c r : ℕ)
      → Held h mine H x
      → x.run_intent ≡ false
      → Safe h mine (Kept h mine) H c r (start_run x)
  unfolding start_run
  start_run-Safe x H c r held idle =
      Safe-bind h mine (Tried h mine Kind.claims_run x claiming_run) (Kept h mine) H c r
        (try_update x claiming_run) run_claimed
        (try_update-Safe h mine Kind.claims_run x claiming_run H c r held
          (λ now. (refl, idle, refl)))
        (λ result H' c' r' ext post. run_claimed-Safe result x H' c' r' post)

  run_when_idle-Safe :
      (x : ControlRecord) (H : History) (c r : ℕ)
      → Held h mine H x
      → x.run_intent ≡ false
      → Safe h mine (Kept h mine) H c r (run_when_idle x)
  unfolding run_when_idle
  run_when_idle-Safe x H c r held idle =
      (tt, λ a H' c' r' ext eff. listed a H' c' r' (Held-Extends h mine H H' x ext held))
    where
      listed :
          (a : ExecutionList) (H' : History) (c' r' : ℕ)
          → Held h mine H' x
          → Safe h mine (Kept h mine) H' c' r' (elim a [
            | ExecutionList.unavailable ↦ update x unknown_outcome
            | ExecutionList.found [] ↦ start_run x
            | ExecutionList.found (e ∷ es) ↦ handle_execution_list x (e ∷ es)
          ])
      listed ExecutionList.unavailable H' c' r' k = update-Safe h mine x _ H' c' r' k refl refl
      listed (ExecutionList.found []) H' c' r' k = start_run-Safe x H' c' r' k idle
      listed (ExecutionList.found (e ∷ es)) H' c' r' k =
          handle_execution_list-Safe h mine (e ∷ es) x H' c' r' k

  not_started : (a b run : Bool) → (not a || (not b || run)) ≡ false → run ≡ false
  not_started a b run e = ground arith

  run_if_ready-Safe :
      (job : ProviderJob) (allow : Bool) (x : ControlRecord) (H : History) (c r : ℕ)
      → Held h mine H x
      → Safe h mine (Kept h mine) H c r (run_if_ready job allow x)
  unfolding run_if_ready
  run_if_ready-Safe job allow x H c r held =
      Safe-if h mine (Kept h mine) H c r (not job.ready || (not allow || x.run_intent)) (done x)
        (run_when_idle x) (λ _. held)
        (λ e. run_when_idle-Safe x H c r held (not_started job.ready allow x.run_intent e))

  job_compared-Safe :
      (x : ControlRecord) (job : ProviderJob) (allow : Bool) (m : JobManifest) (H : History)
      (c r : ℕ)
      → Held h mine H x
      → Safe h mine (Kept h mine) H c r (job_compared x job allow m)
  unfolding job_compared
  job_compared-Safe x job allow m H c r held =
      Safe-if h mine (Kept h mine) H c r (not (manifests_match m job.manifest))
        (update x (mismatched job)) (update x (seen job) >>= run_if_ready job allow)
        (λ _. update-Safe h mine x (mismatched job) H c r held refl refl)
        (λ _.
          Safe-bind h mine (Kept h mine) (Kept h mine) H c r (update x (seen job))
            (run_if_ready job allow) (update-Safe h mine x (seen job) H c r held refl refl)
            (λ y H' c' r' ext kept. run_if_ready-Safe job allow y H' c' r' kept))

  pub job_found-Safe :
      (k : Controller) (x : ControlRecord) (job : ProviderJob) (allow : Bool) (H : History)
      (c r : ℕ)
      → Held h mine H x
      → Safe h mine (Kept h mine) H c r (job_found k x job allow)
  unfolding job_found
  job_found-Safe k x job allow H c r held =
      Safe-bind h mine (NamesHandle h mine x c r) (Kept h mine) H c r (expected_manifest k x)
        (job_compared x job allow) (expected_manifest-Safe h mine k x H c r)
        (λ m H' c' r' ext _.
          job_compared-Safe x job allow m H' c' r' (Held-Extends h mine H H' x ext held))

-- ===== src/Controller/Safety/Requests.antt =====
-- Every request, the reaper and every attestation is safe from the start, with no permit.
use scribe_drop.Common.{
  ℕ, ◌≡◌, ◌∙◌, String, Bool, true, ◌==◌, List, [], ◌∷◌, Option, none, some, arith, ◌is◌,
}
use scribe_drop.Controller.Contracts.{Action, Request, same_environment}
use scribe_drop.Controller.Provider.{ProviderJob, ProviderExecution, ExecutionList, JobRead}
use scribe_drop.Controller.Record.{ControlState, ControlRecord}
use scribe_drop.Controller.Store.{AdmitCreateResult, ClaimRequestResult}
use scribe_drop.Controller.Program.{done, Controller, expected_manifest}
use scribe_drop.Controller.Service.Reconcile.{create_fuel, send_create, reconcile_job}
use scribe_drop.Controller.Service.Executions.{observe_execution}
use scribe_drop.Controller.Service.Cleanup.{cleanup_record}
use scribe_drop.Controller.Service.Execute.{
  response, admission_input, claim_input, answer_admission, create, reconcile_in, reconcile_record,
  act, answer_claim, is_create, execute,
}
use scribe_drop.Controller.Service.Attest.{
  AttestationRequest, judge, judge_reads, attest_stored, attest,
}
use scribe_drop.Controller.Safety.History.{History}
use scribe_drop.Controller.Safety.Logic.{Safe, Safe-bind, Safe-if, Anything, Admitted, Claimed}
use scribe_drop.Controller.Safety.Updates.{Held, Kept, NamesHandle, expected_manifest-Safe}
use scribe_drop.Controller.Safety.Observing.{observe_execution-Safe, cancel_record-Safe}
use scribe_drop.Controller.Safety.Creating.{
  send_create-Safe, reconcile_job-Safe, observe_record-Safe,
}
use scribe_drop.Controller.Safety.Removing.{cleanup_record-Safe}

module _ (h : String) (mine : Bool) (k : Controller) where
  -- The request names the watched handle if the thread counts as its.
  abbrev Names : Request → Type 0
  Names request = mine ≡ true → request.execution_handle ≡ h

  answer_admission-Safe :
      (request : Request) (a : AdmitCreateResult) (H : History) (c r : ℕ)
      → Names request
      → Admitted h mine H request.execution_handle a
      → Safe h mine Anything H c r (answer_admission k request a)
  unfolding answer_admission
  answer_admission-Safe request (AdmitCreateResult.accepted x) H c r names
        (known, e, zero_attempts) =
      Safe-bind h mine (Kept h mine) Anything H c r (send_create k create_fuel x)
        (λ sent. done (response request sent))
        (send_create-Safe h mine k create_fuel x (omega arith) (omega arith) H c r
          (known, λ m. e ∙ names m))
        (λ y H' c' r' ext _. tt)
  answer_admission-Safe request _ H c r names admitted = tt

  create-Safe :
      (request : Request) (digest : String) (H : History) (c r : ℕ)
      → Names request
      → Safe h mine Anything H c r (create k request digest)
  unfolding create admission_input
  create-Safe request digest H c r names =
      Safe-if h mine Anything H c r (request.expected_version == 0) _ _
        (λ _. (
          tt,
          λ now H1 c1 r1 ext1 _.
              (tt, λ a H2 c2 r2 ext2 eff. answer_admission-Safe request a H2 c2 r2 names eff.2),
        ))
        (λ _. tt)

  reconcile_in-Safe :
      (x : ControlRecord) (state : ControlState) (H : History) (c r : ℕ)
      → Held h mine H x
      → Safe h mine (Kept h mine) H c r (reconcile_in k x state)
  unfolding reconcile_in
  reconcile_in-Safe x ControlState.cleaned H c r held = held
  reconcile_in-Safe x ControlState.cancelled H c r held = held
  reconcile_in-Safe x ControlState.succeeded H c r held = held
  reconcile_in-Safe x ControlState.cleanup_pending H c r held =
      cleanup_record-Safe h mine x H c r held
  reconcile_in-Safe x ControlState.failed H c r held =
      Safe-if h mine (Kept h mine) H c r x.cleanup_intent (cleanup_record x) (done x)
        (λ _. cleanup_record-Safe h mine x H c r held) (λ _. held)
  reconcile_in-Safe x _ H c r held =
      Safe-if h mine (Kept h mine) H c r x.cleanup_intent (cleanup_record x) _
        (λ _. cleanup_record-Safe h mine x H c r held)
        (λ _.
          Safe-if h mine (Kept h mine) H c r x.run_intent (observe_execution x)
            (reconcile_job k x true) (λ _. observe_execution-Safe h mine x H c r held)
            (λ _. reconcile_job-Safe h mine k x true H c r held))

  act-Safe :
      (action : Action) (x : ControlRecord) (H : History) (c r : ℕ)
      → Held h mine H x
      → Safe h mine (Kept h mine) H c r (act k action x)
  unfolding act reconcile_record
  act-Safe Action.create x H c r held = held
  act-Safe Action.observe x H c r held = observe_record-Safe h mine k x H c r held
  act-Safe Action.reconcile x H c r held = reconcile_in-Safe x x.state H c r held
  act-Safe Action.cancel x H c r held = cancel_record-Safe h mine x H c r held
  act-Safe Action.cleanup x H c r held = cleanup_record-Safe h mine x H c r held

  answer_claim-Safe :
      (request : Request) (a : ClaimRequestResult) (H : History) (c r : ℕ)
      → Names request
      → Claimed h mine H request.execution_handle a
      → Safe h mine Anything H c r (answer_claim k request a)
  unfolding answer_claim
  answer_claim-Safe request (ClaimRequestResult.accepted x) H c r names (known, e) =
      Safe-bind h mine (Kept h mine) Anything H c r (act k request.action x)
        (λ acted. done (response request acted))
        (act-Safe request.action x H c r (known, λ m. e ∙ names m)) (λ y H' c' r' ext _. tt)
  answer_claim-Safe request _ H c r names claimed = tt

  pub execute-Safe :
      (request : Request) (digest : String) (H : History) (c r : ℕ)
      → Names request
      → Safe h mine Anything H c r (execute k request digest)
  unfolding execute claim_input
  execute-Safe request digest H c r names =
      Safe-if h mine Anything H c r (same_environment request.environment k.environment) _ _
        (λ _.
          Safe-if h mine Anything H c r (is_create request.action) (create k request digest) _
            (λ _. create-Safe request digest H c r names)
            (λ _. (
              tt,
              λ now H1 c1 r1 ext1 _.
                  (tt, λ a H2 c2 r2 ext2 eff. answer_claim-Safe request a H2 c2 r2 names eff.2),
            )))
        (λ _. tt)

  judge-Safe :
      (x : ControlRecord) (job : ProviderJob) (es : List ProviderExecution) (H : History) (c r : ℕ)
      → Safe h mine Anything H c r (judge k x job es)
  unfolding judge
  judge-Safe x job [] H c r = tt
  judge-Safe x job (e ∷ []) H c r =
      Safe-if h mine Anything H c r (e.job_ref is job.ref) _ _
        (λ _.
          Safe-bind h mine (NamesHandle h mine x c r) Anything H c r (expected_manifest k x) _
            (expected_manifest-Safe h mine k x H c r) (λ m H' c' r' ext _. tt))
        (λ _. tt)
  judge-Safe x job (e ∷ e' ∷ es) H c r = tt

  judge_reads-Safe :
      (x : ControlRecord) (job : JobRead) (es : ExecutionList) (H : History) (c r : ℕ)
      → Safe h mine Anything H c r (judge_reads k x job es)
  unfolding judge_reads
  judge_reads-Safe x JobRead.unavailable es H c r = tt
  judge_reads-Safe x JobRead.not_found ExecutionList.unavailable H c r = tt
  judge_reads-Safe x JobRead.not_found (ExecutionList.found es) H c r = tt
  judge_reads-Safe x (JobRead.found job) ExecutionList.unavailable H c r = tt
  judge_reads-Safe x (JobRead.found job) (ExecutionList.found es) H c r = judge-Safe x job es H c r

  attest_stored-Safe :
      (request : AttestationRequest) (o : Option ControlRecord) (H : History) (c r : ℕ)
      → Safe h mine Anything H c r (attest_stored k request o)
  unfolding attest_stored
  attest_stored-Safe request none H c r = tt
  attest_stored-Safe request (some x) H c r =
      Safe-if h mine Anything H c r (same_environment x.environment request.environment) _ _
        (λ _. (tt, λ job H1 c1 r1 _ _. (tt, λ es H2 c2 r2 _ _. judge_reads-Safe x job es H2 c2 r2)))
        (λ _. tt)

  pub attest-Safe :
      (request : AttestationRequest) (H : History) (c r : ℕ)
      → Safe h mine Anything H c r (attest k request)
  unfolding attest
  attest-Safe request H c r =
      Safe-if h mine Anything H c r (same_environment request.environment k.environment) _ _
        (λ _. (tt, λ o H1 c1 r1 _ _. attest_stored-Safe request o H1 c1 r1)) (λ _. tt)

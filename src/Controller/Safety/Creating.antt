-- ===== src/Controller/Safety/Creating.antt =====
-- Creation and reconciliation ask for a job only with the permit of a claim that was won, and send a
-- creation once more only while fewer than two were claimed.
mod Running
use scribe_drop.Common.{
  ℕ, zero, suc, ◌+◌, ◌<◌, ◌≤◌, ◌≡◌, refl, ap, String, Bool, true, false, not, ◌||◌, [], ◌∷◌, Option,
  none, some, is_iff, arith,
}
use scribe_drop.Controller.Provider.{
  ErrorKind, Mutation, ProviderJob, JobRead, JobManifest, ExecutionList, manifests_match,
}
use scribe_drop.Controller.Record.{ControlRecord, apply_changes}
use scribe_drop.Controller.Program.{
  Call, Program, done, ask, ◌>>=◌, Controller, expected_manifest, try_update, update,
}
use scribe_drop.Controller.Service.Executions.{
  unknown_outcome, handle_execution_list, observe_execution,
}
use scribe_drop.Controller.Service.Reconcile.{
  may_send, now_before, unknown_create, operation_failure, send_in_window, job_missing,
  claiming_run, run_job_of, run_claimed, start_run, run_when_idle, mismatched, seen, run_if_ready,
  job_compared, job_found, job_read, reconcile_with, create_answered, create_claimed,
  claiming_create, send_create, create_fuel, reconcile_job, observe_record,
}
use scribe_drop.Controller.Safety.History.{History, Kind}
use scribe_drop.Controller.Safety.Logic.{Safe, Safe-bind, Safe-if}
use scribe_drop.Controller.Safety.Updates.{
  Held, Kept, Tried, NamesHandle, Held-Extends, try_update-Safe, update-Safe,
  expected_manifest-Safe,
}
use scribe_drop.Controller.Safety.Observing.{
  handle_execution_list-Safe, observe_execution-Safe, record_run_mutation-Safe,
}
use scribe_drop.Controller.Safety.Creating.Running.{job_found-Safe}

module _ (h : String) (mine : Bool) where
  -- What a creation of `x` has to satisfy.
  abbrev Sends : ControlRecord → (ControlRecord → Program ControlRecord) → Type 0
  Sends x send =
      x.create_attempts < 2
      → (H : History) (c r : ℕ) → Held h mine H x
      → Safe h mine (Kept h mine) H c r (send x)

  send_in_window-Safe :
      (send : ControlRecord → Program ControlRecord) (x : ControlRecord) (H : History) (c r : ℕ)
      → Sends x send
      → x.create_attempts < 2
      → Held h mine H x
      → Safe h mine (Kept h mine) H c r (send_in_window send x)
  unfolding send_in_window
  send_in_window-Safe send x H c r sends few held = (
    tt,
    λ now H' c' r' ext eff.
        let held' = Held-Extends h mine H H' x ext held in
        Safe-if h mine (Kept h mine) H' c' r' (now_before now x.provisioning_deadline) (send x)
          (unknown_create x) (λ _. sends few H' c' r' held')
          (λ _. update-Safe h mine x _ H' c' r' held' refl refl),
  )

  few_attempts : (x : ControlRecord) (now : ℕ) → may_send x now ≡ true → x.create_attempts < 2
  few_attempts x now e = ground arith

  job_missing-Safe :
      (send : ControlRecord → Program ControlRecord) (x : ControlRecord) (o : Option ErrorKind)
      (H : History) (c r : ℕ)
      → Sends x send
      → Held h mine H x
      → Safe h mine (Kept h mine) H c r (job_missing send x o)
  unfolding job_missing
  job_missing-Safe send x (some kind) H c r sends held = update-Safe h mine x _ H c r held refl refl
  job_missing-Safe send x none H c r sends held = (
    tt,
    λ now H' c' r' ext eff.
        let held' = Held-Extends h mine H H' x ext held in
        Safe-if h mine (Kept h mine) H' c' r' (may_send x now) (send_in_window send x)
          (unknown_create x)
          (λ e. send_in_window-Safe send x H' c' r' sends (few_attempts x now e) held')
          (λ _. update-Safe h mine x _ H' c' r' held' refl refl),
  )

  job_read-Safe :
      (k : Controller) (send : ControlRecord → Program ControlRecord) (x : ControlRecord)
      (allow : Bool) (o : Option ErrorKind) (read : JobRead) (H : History) (c r : ℕ)
      → Sends x send
      → Held h mine H x
      → Safe h mine (Kept h mine) H c r (job_read k send x allow o read)
  unfolding job_read
  job_read-Safe k send x allow o JobRead.unavailable H c r sends held =
      update-Safe h mine x unknown_outcome H c r held refl refl
  job_read-Safe k send x allow o JobRead.not_found H c r sends held =
      job_missing-Safe send x o H c r sends held
  job_read-Safe k send x allow o (JobRead.found job) H c r sends held =
      job_found-Safe h mine k x job allow H c r held

  operation_failure-Safe :
      (o : Option String) (H : History) (c r : ℕ)
      → Safe h mine (λ _ _ _ _. Unit {0}) H c r (operation_failure o)
  unfolding operation_failure
  operation_failure-Safe none H c r = tt
  operation_failure-Safe (some operation) H c r = (tt, λ a H' c' r' ext eff. tt)

  reconcile_with-Safe :
      (k : Controller) (send : ControlRecord → Program ControlRecord) (x : ControlRecord)
      (allow : Bool) (H : History) (c r : ℕ)
      → Sends x send
      → Held h mine H x
      → Safe h mine (Kept h mine) H c r (reconcile_with k send x allow)
  unfolding reconcile_with
  reconcile_with-Safe k send x allow H c r sends held =
      Safe-bind h mine (λ _ _ _ _. Unit {0}) (Kept h mine) H c r (operation_failure x.operation_ref)
        (λ failed. ask (Call.get_job x.job_id) (job_read k send x allow failed))
        (operation_failure-Safe x.operation_ref H c r)
        (λ failed H' c' r' ext _. (
          tt,
          λ read H'' c'' r'' ext' eff.
              job_read-Safe k send x allow failed read H'' c'' r'' sends
                (Held-Extends h mine H H'' x (λ y i. ext' y (ext y i)) held),
        ))

  create_answered-Safe :
      (again : ControlRecord → Program ControlRecord) (x : ControlRecord) (m : Mutation)
      (H : History) (c r : ℕ)
      → ((H' : History) (c' r' : ℕ)
          → Held h mine H' x
          → Safe h mine (Kept h mine) H' c' r' (again x))
      → Held h mine H x
      → Safe h mine (Kept h mine) H c r (create_answered again x m)
  unfolding create_answered
  create_answered-Safe again x Mutation.conflict H c r more held = more H c r held
  create_answered-Safe again x _ H c r more held = update-Safe h mine x _ H c r held refl refl

  create_claimed-Safe :
      (k : Controller) (again : ControlRecord → Program ControlRecord) (x : ControlRecord)
      (result : Bool × ControlRecord) (H : History) (c r : ℕ)
      → ((y : ControlRecord) (H' : History) (c' r' : ℕ)
          → y.create_attempts ≡ x.create_attempts + 1
          → Held h mine H' y
          → Safe h mine (Kept h mine) H' c' r' (again y))
      → Tried h mine Kind.claims_create x (claiming_create x) result H c r
      → Safe h mine (Kept h mine) H c r (create_claimed k again result)
  unfolding create_claimed
  create_claimed-Safe k again x (false, y) H c r more post = post.0
  create_claimed-Safe k again x (true, y) H c r more (held, grant, new) =
      Safe-bind h mine (NamesHandle h mine y c r) (Kept h mine) H c r (expected_manifest k y)
        (λ manifest. ask (Call.create_job y.job_id manifest) (create_answered again y))
        (expected_manifest-Safe h mine k y H c r)
        (λ m H' c' r' ext (named, same, _). (
          λ e. rw same (grant refl (cc (named, (is_iff m.execution_handle h).0 e))),
          λ a H'' c'' r'' ext' eff.
              create_answered-Safe again y a H'' c'' r''
                (λ H3 c3 r3 held3. more y H3 c3 r3 (claimed_attempts y new) held3)
                (Held-Extends h mine H H'' y (λ z i. ext' z (ext z i)) held),
        ))
    where
      claimed_attempts :
          (z : ControlRecord)
          → (true ≡ true → (now : ℕ) × (z ≡ apply_changes x (claiming_create x) now))
          → z.create_attempts ≡ x.create_attempts + 1
      claimed_attempts z n = ap (λ w. w.create_attempts) (n refl).1

  -- With the fuel for the creations still allowed, creation never runs out of it.
  pub send_create-Safe :
      (k : Controller) (fuel : ℕ) (x : ControlRecord)
      → 2 ≤ x.create_attempts + fuel
      → Sends x (send_create k fuel)
  unfolding send_create
  send_create-Safe k zero x enough few H c r held = absurd (omega arith)
  send_create-Safe k (suc fuel) x enough few H c r held =
      Safe-bind h mine (Tried h mine Kind.claims_create x (claiming_create x)) (Kept h mine) H c r
        (try_update x (claiming_create x))
        (create_claimed k (λ intent. reconcile_with k (send_create k fuel) intent true))
        (try_update-Safe h mine Kind.claims_create x (claiming_create x) H c r held
          (λ now. (refl, refl, few)))
        (λ result H' c' r' ext post.
          create_claimed-Safe k _ x result H' c' r'
            (λ y H'' c'' r'' e held''.
              reconcile_with-Safe k (send_create k fuel) y true H'' c'' r''
                (send_create-Safe k fuel y (omega arith)) held'')
            post)

  pub reconcile_job-Safe :
      (k : Controller) (x : ControlRecord) (allow : Bool) (H : History) (c r : ℕ)
      → Held h mine H x
      → Safe h mine (Kept h mine) H c r (reconcile_job k x allow)
  unfolding reconcile_job
  reconcile_job-Safe k x allow H c r held =
      reconcile_with-Safe k (send_create k create_fuel) x allow H c r
        (send_create-Safe k create_fuel x (omega arith)) held

  pub observe_record-Safe :
      (k : Controller) (x : ControlRecord) (H : History) (c r : ℕ)
      → Held h mine H x
      → Safe h mine (Kept h mine) H c r (observe_record k x)
  unfolding observe_record
  observe_record-Safe k x H c r held =
      Safe-if h mine (Kept h mine) H c r x.run_intent (observe_execution x)
        (reconcile_job k x false) (λ _. observe_execution-Safe h mine x H c r held)
        (λ _. reconcile_job-Safe k x false H c r held)

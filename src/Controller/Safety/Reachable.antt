-- ===== src/Controller/Safety/Reachable.antt =====
-- What holds of the controller at any moment, whatever requests come in, in whatever order their calls
-- are answered, and whatever the clock and the provider answer.
use mathlib.Core.Path.{subst}
use scribe_drop.Common.{
  ℕ, suc, ◌+◌, ◌≤◌, ◌≡◌, refl, sym, ap, inl, inr, String, Bool, true, false, List, [], ◌∷◌, ◌++◌,
  Option, some, is_iff, arith, Bool-cases, if◌then◌else◌,
}
use scribe_drop.Common.Assoc.{lookup}
use scribe_drop.Controller.Contracts.{Environment, Request}
use scribe_drop.Controller.Store.{ControlStore}
use scribe_drop.Controller.Program.{Call, Answer, Program, done, ask, Controller}
use scribe_drop.Controller.Service.Execute.{execute}
use scribe_drop.Controller.Service.Cleanup.{reap}
use scribe_drop.Controller.Service.Attest.{AttestationRequest, attest}
use scribe_drop.Controller.System.{
  Thread, System, Outcome, Step, Reach, Answers, idle, arrive, wake, inquire, advance, here, next,
  request_thread, reaper_thread, attestation_thread, owned_by, jobs_created, jobs_run, creates_job,
}
use scribe_drop.Controller.Safety.History.{History, attempts_of, runs_of}
use scribe_drop.Controller.Safety.Logic.{Safe-bind, Anything}
use scribe_drop.Common.Filed.{Filed}
use scribe_drop.Controller.Safety.Stored.{Stored, cost, run_cost}
use scribe_drop.Controller.Safety.Answered.{answered}
use scribe_drop.Controller.Safety.Removing.{reap-Safe}
use scribe_drop.Controller.Safety.Requests.{execute-Safe, attest-Safe}
use scribe_drop.Controller.Safety.Threads.{SafeThread, Threads, Threads-Among}

module _ (h : String) where
  -- The watched record's history explains the store, the threads and the log.
  abbrev pub Invariant : System → Type 0
  Invariant t =
      (H : History) × (C R : ℕ) × Stored h t.store H
      × Threads h H C R t.threads
      × (jobs_created h t.log + C ≤ attempts_of H)
      × (jobs_run h t.log + R ≤ runs_of H)

  jobs_created_more :
      (owner : Option String) (q : Call) (log : List (Option String × Call))
      → jobs_created h ((owner, q) ∷ log) ≡ cost (creates_job h q) + jobs_created h log
  jobs_created_more owner q log = elim (Bool-cases (creates_job h q)) [
    | inl made ↦ rw made (omega arith)
    | inr none_made ↦ rw none_made (omega arith)
  ]

  runs_more : (mine : Bool) (n : ℕ) → (if mine then suc n else n) ≡ cost mine + n
  runs_more true n = omega arith
  runs_more false n = omega arith

  jobs_run_more :
      (owner : Option String) (q : Call) (log : List (Option String × Call))
      → jobs_run h ((owner, q) ∷ log) ≡ run_cost (owned_by h owner) q + jobs_run h log
  jobs_run_more owner (Call.run_job j) log = runs_more (owned_by h owner) (jobs_run h log)
  jobs_run_more owner _ log = omega arith

  join_threads :
      (t : System) (u : Thread)
      → ((H : History) → SafeThread h H 0 0 u)
      → Invariant t
      → Invariant (record t { threads = u ∷ t.threads })
  join_threads t u s (H, C, R, st, ks, created, ran) =
      (H, C, R, st, (0, 0, C, R, omega arith, omega arith, s H, ks), created, ran)

  owner_names : (handle : String) → owned_by h (some handle) ≡ true → handle ≡ h
  owner_names handle e = (is_iff handle h).0 e

  request-SafeThread :
      (k : Controller) (request : Request) (digest : String) (H : History)
      → SafeThread h H 0 0 (request_thread k request digest)
  request-SafeThread k request digest H =
      let mine = owned_by h (some request.execution_handle) in
      Safe-bind h mine Anything Anything H 0 0 (execute k request digest)
        (λ r. done (Outcome.responded r))
        (execute-Safe h mine k request digest H 0 0 (owner_names request.execution_handle))
        (λ a H' c' r' ext _. tt)

  reaper-SafeThread :
      (k : Controller) (e : Environment) (H : History) → SafeThread h H 0 0 (reaper_thread k e)
  reaper-SafeThread k e H =
      Safe-bind h false Anything Anything H 0 0 (reap k e) (λ n. done (Outcome.reaped n))
        (reap-Safe h k e H 0 0) (λ a H' c' r' ext _. tt)

  attestation-SafeThread :
      (k : Controller) (request : AttestationRequest) (H : History)
      → SafeThread h H 0 0 (attestation_thread k request)
  attestation-SafeThread k request H =
      let mine = owned_by h (some request.execution_handle) in
      Safe-bind h mine Anything Anything H 0 0 (attest k request) (λ a. done (Outcome.attested a))
        (attest-Safe h mine k request H 0 0) (λ a H' c' r' ext _. tt)

  advance-Invariant :
      (t : System) (before after : List Thread) (owner : Option String) (q : Call)
      (k : Answer q → Program Outcome) (a : Answer q) (store : ControlStore)
      → t.threads ≡ before ++ record { owner = owner; program = ask q k } ∷ after
      → Answers t.store q a store
      → Invariant t
      → Invariant (record {
        store = store;
        threads = before ++ record { owner = owner; program = k a } ∷ after;
        log = (owner, q) ∷ t.log;
      })
  advance-Invariant t before after owner q k a store split ans (H, C, R, st, ks, created, ran) =
      let (c, r, C', R', eC, eR, (g, goes_on), replace) =
        Threads-Among h H C R before (record { owner = owner; program = ask q k }) after
          (subst (Threads h H C R) split ks) in
      let (H', c', r', ext, eff, st', paid, paid_run) =
        answered h (owned_by h owner) t.store store H c r q g a st ans in
      (
        H',
        c' + C',
        r' + R',
        st',
        replace H' c' r' _ ext (goes_on a H' c' r' ext eff),
        omega (arith, jobs_created_more owner q t.log),
        omega (arith, jobs_run_more owner q t.log),
      )

  Step-Invariant : (k : Controller) (s t : System) → Step k s t → Invariant s → Invariant t
  Step-Invariant k s t (arrive request digest _ e) v =
      subst Invariant (sym e)
        (join_threads s (request_thread k request digest) (request-SafeThread k request digest) v)
  Step-Invariant k s t (wake environment _ e) v =
      subst Invariant (sym e)
        (join_threads s (reaper_thread k environment) (reaper-SafeThread k environment) v)
  Step-Invariant k s t (inquire request _ e) v =
      subst Invariant (sym e)
        (join_threads s (attestation_thread k request) (attestation-SafeThread k request) v)
  Step-Invariant k s t (advance before after owner q f a store _ split ans e) v =
      subst Invariant (sym e) (advance-Invariant s before after owner q f a store split ans v)

  idle-Invariant : (store : ControlStore) → store.records ≡ [] → Invariant (idle store)
  unfolding lookup
  idle-Invariant store e = (
    [],
    0,
    0,
    record {
      filed = subst (Filed (λ r. r.execution_handle)) (sym e) tt;
      kept = ap (lookup h) e;
      falling = tt;
      few = omega arith;
    },
    (refl, refl),
    omega arith,
    omega arith,
  )

  pub Reach-Invariant :
      (k : Controller) (store : ControlStore) (t : System)
      → store.records ≡ []
      → Reach k (idle store) t
      → Invariant t
  Reach-Invariant k store t e here = idle-Invariant store e
  Reach-Invariant k store t e (next {t = u} reach step) =
      Step-Invariant k u t step (Reach-Invariant k store u e reach)

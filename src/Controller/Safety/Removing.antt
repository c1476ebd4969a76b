-- ===== src/Controller/Safety/Removing.antt =====
-- Cleanup and the reaper claim nothing.
use scribe_drop.Common.{ℕ, ◌+◌, refl, String, Bool, false, ◌||◌, List, [], ◌∷◌, All, if◌then◌else◌}
use scribe_drop.Controller.Contracts.{Environment, same_environment}
use scribe_drop.Controller.Provider.{ProviderExecution, ExecutionList, JobRead}
use scribe_drop.Controller.Record.{ControlRecord, not_after}
use scribe_drop.Controller.Program.{Call, Program, done, ask, update, ◌>>=◌, Controller}
use scribe_drop.Controller.Service.Cleanup.{
  is_live, is_gone, removed, cleaning, cleanup_unknown, remove_all, confirm_gone,
  job_found_at_cleanup, remove_job, remove_listed, remove_resources, cleanup_record, reap_loop,
  reap,
}
use scribe_drop.Controller.Safety.History.{History, Extends}
use scribe_drop.Controller.Safety.Logic.{Safe, Safe-bind, Safe-if, Knows, Anything}
use scribe_drop.Controller.Safety.Updates.{Held, Kept, Held-Extends, update-Safe}

module _ (h : String) (mine : Bool) where
  remove_all-Safe :
      (es : List ProviderExecution) (x : ControlRecord) (next : Program ControlRecord) (H : History)
      (c r : ℕ)
      → Held h mine H x
      → ((H' : History) (c' r' : ℕ) → Held h mine H' x → Safe h mine (Kept h mine) H' c' r' next)
      → Safe h mine (Kept h mine) H c r (remove_all es next)
  unfolding remove_all
  remove_all-Safe [] x next H c r held s = s H c r held
  remove_all-Safe (e ∷ es) x next H c r held s =
      let rest = remove_all-Safe es x next in
      Safe-if h mine (Kept h mine) H c r (is_live e.status)
        (ask (Call.cancel_execution e) λ _. ask (Call.delete_execution e) λ _. remove_all es next)
        (ask (Call.delete_execution e) λ _. remove_all es next)
        (λ _. (
          tt,
          λ a H1 c1 r1 ext1 _. (
            tt,
            λ b H2 c2 r2 ext2 _.
                rest H2 c2 r2
                  (Held-Extends h mine H1 H2 x ext2 (Held-Extends h mine H H1 x ext1 held)) s,
          ),
        ))
        (λ _. (tt, λ b H1 c1 r1 ext1 _. rest H1 c1 r1 (Held-Extends h mine H H1 x ext1 held) s))

  confirm_gone-Safe :
      (x : ControlRecord) (H : History) (c r : ℕ)
      → Held h mine H x
      → Safe h mine (Kept h mine) H c r (confirm_gone x)
  unfolding confirm_gone
  confirm_gone-Safe x H c r held = (
    tt,
    λ a H1 c1 r1 ext1 _. (
      tt,
      λ b H2 c2 r2 ext2 _.
          let held2 = Held-Extends h mine H1 H2 x ext2 (Held-Extends h mine H H1 x ext1 held) in
          Safe-if h mine (Kept h mine) H2 c2 r2 (is_gone a b) (update x removed)
            (update x cleanup_unknown) (λ _. update-Safe h mine x removed H2 c2 r2 held2 refl refl)
            (λ _. update-Safe h mine x cleanup_unknown H2 c2 r2 held2 refl refl),
    ),
  )

  job_found_at_cleanup-Safe :
      (read : JobRead) (x : ControlRecord) (H : History) (c r : ℕ)
      → Held h mine H x
      → Safe h mine (Kept h mine) H c r (job_found_at_cleanup x read)
  unfolding job_found_at_cleanup
  job_found_at_cleanup-Safe JobRead.unavailable x H c r held =
      update-Safe h mine x cleanup_unknown H c r held refl refl
  job_found_at_cleanup-Safe (JobRead.found job) x H c r held =
      (tt, λ a H1 c1 r1 ext1 _. confirm_gone-Safe x H1 c1 r1 (Held-Extends h mine H H1 x ext1 held))
  job_found_at_cleanup-Safe JobRead.not_found x H c r held = confirm_gone-Safe x H c r held

  remove_job-Safe :
      (x : ControlRecord) (H : History) (c r : ℕ)
      → Held h mine H x
      → Safe h mine (Kept h mine) H c r (remove_job x)
  unfolding remove_job
  remove_job-Safe x H c r held = (
    tt,
    λ a H1 c1 r1 ext1 _.
        job_found_at_cleanup-Safe a x H1 c1 r1 (Held-Extends h mine H H1 x ext1 held),
  )

  remove_listed-Safe :
      (listed : ExecutionList) (x : ControlRecord) (H : History) (c r : ℕ)
      → Held h mine H x
      → Safe h mine (Kept h mine) H c r (remove_listed x listed)
  unfolding remove_listed
  remove_listed-Safe ExecutionList.unavailable x H c r held =
      update-Safe h mine x cleanup_unknown H c r held refl refl
  remove_listed-Safe (ExecutionList.found es) x H c r held =
      remove_all-Safe es x (remove_job x) H c r held
        (λ H' c' r' held'. remove_job-Safe x H' c' r' held')

  remove_resources-Safe :
      (x : ControlRecord) (H : History) (c r : ℕ)
      → Held h mine H x
      → Safe h mine (Kept h mine) H c r (remove_resources x)
  unfolding remove_resources
  remove_resources-Safe x H c r held = (
    tt,
    λ a H1 c1 r1 ext1 _. remove_listed-Safe a x H1 c1 r1 (Held-Extends h mine H H1 x ext1 held),
  )

  pub cleanup_record-Safe :
      (x : ControlRecord) (H : History) (c r : ℕ)
      → Held h mine H x
      → Safe h mine (Kept h mine) H c r (cleanup_record x)
  unfolding cleanup_record
  cleanup_record-Safe x H c r held =
      Safe-bind h mine (Kept h mine) (Kept h mine) H c r
        (if x.cleanup_intent then done x else update x cleaning) remove_resources
        (Safe-if h mine (Kept h mine) H c r x.cleanup_intent (done x) (update x cleaning)
          (λ _. held) (λ _. update-Safe h mine x cleaning H c r held refl refl))
        (λ y H' c' r' ext kept. remove_resources-Safe y H' c' r' kept)

-- The reaper's request names no handle.
module _ (h : String) where
  All-Knows :
      (rs : List ControlRecord) (H H' : History)
      → Extends H H'
      → All (Knows h false H) rs
      → All (Knows h false H') rs
  All-Knows [] H H' ext k = tt
  All-Knows (x ∷ rs) H H' ext (k, ks) = ((λ e. ext x (k e)), All-Knows rs H H' ext ks)

  reap_loop-Safe :
      (rs : List ControlRecord) (now n : ℕ) (H : History) (c r : ℕ)
      → All (Knows h false H) rs
      → Safe h false Anything H c r (reap_loop now rs n)
  unfolding reap_loop
  reap_loop-Safe [] now n H c r k = tt
  reap_loop-Safe (x ∷ rs) now n H c r (k, ks) =
      Safe-if h false Anything H c r (x.cleanup_intent || not_after x.provisioning_deadline now)
        (cleanup_record x >>= λ _. reap_loop now rs (n + 1)) (reap_loop now rs n)
        (λ _.
          Safe-bind h false (Kept h false) Anything H c r (cleanup_record x)
            (λ _. reap_loop now rs (n + 1)) (cleanup_record-Safe h false x H c r (k, λ e. cc))
            (λ y H' c' r' ext _. reap_loop-Safe rs now (n + 1) H' c' r' (All-Knows rs H H' ext ks)))
        (λ _. reap_loop-Safe rs now n H c r ks)

  pub reap-Safe :
      (k : Controller) (e : Environment) (H : History) (c r : ℕ)
      → Safe h false Anything H c r (reap k e)
  unfolding reap
  reap-Safe k e H c r =
      Safe-if h false Anything H c r (same_environment e k.environment) _ (done 0)
        (λ _. (
          tt,
          λ now H1 c1 r1 ext1 _.
              (tt, λ rs H2 c2 r2 ext2 eff. reap_loop-Safe rs now 0 H2 c2 r2 eff.2),
        ))
        (λ _. tt)

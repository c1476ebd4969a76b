-- ===== src/Controller/Guarantees.antt =====
-- What the controller guarantees its provider and its callers, under any interleaving of requests,
-- reaping and attestation over one store, and with any answers of the clock and the provider.
use mathlib.Core.Path.{subst}
use scribe_drop.Common.{ℕ, ◌≤◌, ◌≡◌, sym, ◌∙◌, String, List, [], ◌∷◌, ◌++◌, Option, some, arith}
use scribe_drop.Controller.Record.{ControlRecord}
use scribe_drop.Controller.Store.{ControlStore, get}
use scribe_drop.Controller.Program.{Failure, fail, Controller}
use scribe_drop.Controller.System.{System, Thread, Reach, idle, jobs_created, jobs_run}
use scribe_drop.Controller.Safety.History.{History, attempts_of, bit, runs_of, newest}
use scribe_drop.Controller.Safety.Reachable.{Reach-Invariant}
use scribe_drop.Controller.Safety.Threads.{Threads, Threads-Among}

runs_of-le : (H : History) → runs_of H ≤ 1
runs_of-le [] = omega arith
runs_of-le (x ∷ H) = ground arith

-- From an empty store, however the calls of any requests, reapers and attestations interleave, and
-- whatever the clock and the provider answer: for each handle the provider is asked at most twice to
-- create a job that names it, and at most once to run a job for a request that names it.
pub provider_calls_bounded :
    (k : Controller) (store : ControlStore) (t : System) (h : String)
    → store.records ≡ []
    → Reach k (idle store) t
    → (jobs_created h t.log ≤ 2) × (jobs_run h t.log ≤ 1)
provider_calls_bounded k store t h e reach =
    let (H, C, R, st, _, created, ran) = Reach-Invariant h k store t e reach in
    (omega (arith, st.few), omega (arith, runs_of-le H))

accounted :
    (H : History) (x : ControlRecord) (c r : ℕ)
    → newest H ≡ some x
    → c ≤ attempts_of H
    → r ≤ runs_of H
    → attempts_of H ≤ 2
    → (c ≤ x.create_attempts) × (x.create_attempts ≤ 2) × (r ≤ bit x.run_intent)
accounted [] x c r e created ran few = absurd (cc)
accounted (y ∷ H) x c r e created ran few = ground arith

-- In every such state the stored record of a handle accounts for those calls: no more creations than
-- its attempts, which are at most two, and no run unless its run intent is set.
pub record_accounts_for_calls :
    (k : Controller) (store : ControlStore) (t : System) (h : String) (x : ControlRecord)
    → store.records ≡ []
    → Reach k (idle store) t
    → get t.store h ≡ some x
    → (jobs_created h t.log ≤ x.create_attempts)
      × (x.create_attempts ≤ 2)
      × (jobs_run h t.log ≤ bit x.run_intent)
unfolding get
record_accounts_for_calls k store t h x e reach stored =
    let (H, C, R, st, _, created, ran) = Reach-Invariant h k store t e reach in
    accounted H x (jobs_created h t.log) (jobs_run h t.log) (sym st.kept ∙ stored) (omega arith)
      (omega arith) st.few

-- In every such state no thread has run out of the fuel that the model gives to the creation and the
-- reconciliation that call each other: the fuel of two rounds is always enough.
pub never_out_of_fuel :
    (k : Controller) (store : ControlStore) (t : System) (before after : List Thread)
    (owner : Option String)
    → store.records ≡ []
    → Reach k (idle store) t
    → ¬ (t.threads ≡ before ++ record { owner = owner; program = fail Failure.out_of_fuel } ∷ after)
never_out_of_fuel k store t before after owner e reach stuck =
    let (H, C, R, st, ks, created, ran) = Reach-Invariant "" k store t e reach in
    let (c, r, C', R', eC, eR, impossible, replace) =
      Threads-Among "" H C R before (record { owner = owner; program = fail Failure.out_of_fuel })
        after (subst (Threads "" H C R) stuck ks) in
    impossible

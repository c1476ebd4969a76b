-- ===== src/Controller/Schedule.antt =====
-- Schedules: which thread's call is answered next, and what the clock and the provider answer. A
-- schedule is run, and where it leads is reachable.
use mathlib.Core.Path.{subst}
use scribe_drop.Common.{
  ℕ, zero, suc, ◌≡◌, refl, sym, ap, ◌⊎◌, inl, inr, String, List, [], ◌∷◌, ◌++◌, Option,
}
use scribe_drop.Controller.Provider.{Mutation, JobRead, OperationRead, ExecutionList}
use scribe_drop.Controller.Store.{
  ControlStore, admit_create, claim_request, compare_and_set, get, list_unclean,
}
use scribe_drop.Controller.Program.{Call, Answer, Program, done, fail, ask, Controller}
use scribe_drop.Controller.System.{System, Thread, Outcome, Answers, Reach, advance, next}

-- What the clock and the provider answer, whichever is asked.
pub record Replies : Type 0 where
  pub time : ℕ
  pub mutation : Mutation
  pub job : JobRead
  pub operation : OperationRead
  pub executions : ExecutionList

unfoldable pub respond : ControlStore → Replies → (q : Call) → Answer q × ControlStore
respond s r Call.now = (r.time, s)
respond s r (Call.admit_create i) = let (s', a) = admit_create s i in (a, s')
respond s r (Call.claim_request i) = let (s', a) = claim_request s i in (a, s')
respond s r (Call.compare_and_set v n) = let (s', a) = compare_and_set s v n in (a, s')
respond s r (Call.get h) = (get s h, s)
respond s r (Call.list_unclean e) = (list_unclean s e, s)
respond s r (Call.cancel_execution e) = (r.mutation, s)
respond s r (Call.delete_execution e) = (r.mutation, s)
respond s r (Call.create_job j m) = (r.mutation, s)
respond s r (Call.delete_job j) = (r.mutation, s)
respond s r (Call.run_job j) = (r.mutation, s)
respond s r (Call.get_job j) = (r.job, s)
respond s r (Call.get_operation o) = (r.operation, s)
respond s r (Call.list_executions j) = (r.executions, s)

respond-Answers :
    (s : ControlStore) (r : Replies) (q : Call) → Answers s q (respond s r q).0 (respond s r q).1
unfolding respond
respond-Answers s r (Call.admit_create i) = (refl, refl)
respond-Answers s r (Call.claim_request i) = (refl, refl)
respond-Answers s r (Call.compare_and_set v n) = (refl, refl)
respond-Answers s r (Call.get h) = (refl, refl)
respond-Answers s r (Call.list_unclean e) = (refl, refl)
respond-Answers s r _ = refl

-- The store, the threads and what the log gains.
abbrev Stepped : Type 0
Stepped = ControlStore × List Thread × List (Option String × Call)

unfoldable pub step_program :
    ControlStore → Replies → Option String → Program Outcome → List Thread → Stepped
unfolding respond
step_program s r owner (ask q k) after =
    let (a, s') = respond s r q in
    (s', record { owner = owner; program = k a } ∷ after, (owner, q) ∷ [])
step_program s r owner p after = (s, record { owner = owner; program = p } ∷ after, [])

unfoldable pub step_at : ControlStore → Replies → ℕ → List Thread → Stepped
unfolding step_program
step_at s r n [] = (s, [], [])
step_at s r zero (t ∷ ts) = step_program s r t.owner t.program ts
step_at s r (suc n) (t ∷ ts) = let (s', ts', log) = step_at s r n ts in (s', t ∷ ts', log)

abbrev IsStep : ControlStore → List Thread → Stepped → Type 0
IsStep s ts (s', ts', log) =
    ((s' ≡ s) × (ts' ≡ ts) × (log ≡ []))
    ⊎ ((before after : List Thread) × (owner : Option String) × (q : Call) × (k : Answer q
          → Program Outcome)
        × (a : Answer q) × (ts ≡ before ++ record { owner = owner; program = ask q k } ∷ after)
        × Answers s q a s'
        × (ts' ≡ before ++ record { owner = owner; program = k a } ∷ after)
        × (log ≡ (owner, q) ∷ []))

step_program-IsStep :
    (s : ControlStore) (r : Replies) (owner : Option String) (p : Program Outcome)
    (after : List Thread)
    → IsStep s (record { owner = owner; program = p } ∷ after) (step_program s r owner p after)
unfolding step_program
step_program-IsStep s r owner (ask q k) after =
    inr ([], after, owner, q, k, (respond s r q).0, refl, respond-Answers s r q, refl, refl)
step_program-IsStep s r owner (done x) after = inl (refl, refl, refl)
step_program-IsStep s r owner (fail e) after = inl (refl, refl, refl)

IsStep-later :
    (s : ControlStore) (t : Thread) (ts : List Thread) (u : Stepped)
    → IsStep s ts u
    → IsStep s (t ∷ ts) (u.0, t ∷ u.1, u.2)
IsStep-later s t ts u (inl (e, e', e'')) = inl (e, ap (λ l. t ∷ l) e', e'')
IsStep-later s t ts u (inr (before, after, owner, q, k, a, e, ans, e', e'')) =
    inr (t ∷ before, after, owner, q, k, a, ap (λ l. t ∷ l) e, ans, ap (λ l. t ∷ l) e', e'')

step_at-IsStep :
    (s : ControlStore) (r : Replies) (n : ℕ) (ts : List Thread) → IsStep s ts (step_at s r n ts)
unfolding step_at
step_at-IsStep s r n [] = inl (refl, refl, refl)
step_at-IsStep s r zero (t ∷ ts) = step_program-IsStep s r t.owner t.program ts
step_at-IsStep s r (suc n) (t ∷ ts) =
    IsStep-later s t ts (step_at s r n ts) (step_at-IsStep s r n ts)

abbrev resume : System → Stepped → System
resume t (s', ts', log) = record { store = s'; threads = ts'; log = log ++ t.log }

unfoldable pub play : System → List (ℕ × Replies) → System
unfolding step_at
play t [] = t
play t ((n, r) ∷ schedule) = play (resume t (step_at t.store r n t.threads)) schedule

resume-Reach :
    (c : Controller) (s t : System) (u : Stepped)
    → Reach c s t
    → IsStep t.store t.threads u
    → Reach c s (resume t u)
resume-Reach c s t u reach (inl (e, e', e'')) =
    subst (Reach c s)
      (λ i. record { store = sym e i; threads = sym e' i; log = (sym e'' i) ++ t.log }) reach
resume-Reach c s t u reach (inr (before, after, owner, q, k, a, e, ans, e', e'')) = next reach (
    advance before after owner q k a u.0 (resume t u) e ans
      (λ i. record { store = u.0; threads = e' i; log = (e'' i) ++ t.log }))

-- Where a schedule leads is reachable.
pub play-Reach :
    (c : Controller) (s t : System) (schedule : List (ℕ × Replies))
    → Reach c s t
    → Reach c s (play t schedule)
unfolding play
play-Reach c s t [] reach = reach
play-Reach c s t ((n, r) ∷ schedule) reach =
    play-Reach c s (resume t (step_at t.store r n t.threads)) schedule (
      resume-Reach c s t (step_at t.store r n t.threads) reach
        (step_at-IsStep t.store r n t.threads))

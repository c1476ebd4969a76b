-- ===== src/Controller/Stored.antt =====
-- What every operation of the store keeps, every run of the controller keeps.
use mathlib.Core.Path.{subst}
use scribe_drop.Common.{ℕ, sym}
use scribe_drop.Controller.Record.{ControlRecord}
use scribe_drop.Controller.Store.{
  ControlStore, AdmitCreateInput, ClaimRequestInput, admit_create, claim_request, compare_and_set,
}
use scribe_drop.Controller.Program.{Call, Answer, Controller}
use scribe_drop.Controller.System.{
  System, Answers, Step, Reach, arrive, wake, inquire, advance, here, next,
}

module _ (P : ControlStore → Type 0)
    (admits : (s : ControlStore) (i : AdmitCreateInput) → P s → P (admit_create s i).0)
    (claims : (s : ControlStore) (i : ClaimRequestInput) → P s → P (claim_request s i).0)
    (sets : (s : ControlStore) (v : ℕ) (r : ControlRecord)
      → P s
      → P (compare_and_set s v r).0) where
  Answers-keeps : (s s' : ControlStore) (q : Call) (a : Answer q) → Answers s q a s' → P s → P s'
  Answers-keeps s s' (Call.admit_create i) a (_, e) p = subst P (sym e) (admits s i p)
  Answers-keeps s s' (Call.claim_request i) a (_, e) p = subst P (sym e) (claims s i p)
  Answers-keeps s s' (Call.compare_and_set v r) a (_, e) p = subst P (sym e) (sets s v r p)
  Answers-keeps s s' (Call.get h) a (_, e) p = subst P (sym e) p
  Answers-keeps s s' (Call.list_unclean h) a (_, e) p = subst P (sym e) p
  Answers-keeps s s' Call.now a e p = subst P (sym e) p
  Answers-keeps s s' (Call.cancel_execution x) a e p = subst P (sym e) p
  Answers-keeps s s' (Call.delete_execution x) a e p = subst P (sym e) p
  Answers-keeps s s' (Call.create_job j m) a e p = subst P (sym e) p
  Answers-keeps s s' (Call.delete_job j) a e p = subst P (sym e) p
  Answers-keeps s s' (Call.run_job j) a e p = subst P (sym e) p
  Answers-keeps s s' (Call.get_job j) a e p = subst P (sym e) p
  Answers-keeps s s' (Call.get_operation o) a e p = subst P (sym e) p
  Answers-keeps s s' (Call.list_executions j) a e p = subst P (sym e) p

  Step-keeps : (c : Controller) (s t : System) → Step c s t → P s.store → P t.store
  Step-keeps c s t (arrive request digest _ e) p = subst (λ u. P u.store) (sym e) p
  Step-keeps c s t (wake environment _ e) p = subst (λ u. P u.store) (sym e) p
  Step-keeps c s t (inquire request _ e) p = subst (λ u. P u.store) (sym e) p
  Step-keeps c s t (advance before after owner q k a store _ split answers e) p =
      subst (λ u. P u.store) (sym e) (Answers-keeps s.store store q a answers p)

  pub Reach-keeps : (c : Controller) (s t : System) → Reach c s t → P s.store → P t.store
  Reach-keeps c s _ here p = p
  Reach-keeps c s _ (next {t} {u} reach step) p = Step-keeps c t u step (Reach-keeps c s t reach p)

-- ===== src/Runtime/Sessions/Known.antt =====
-- What a stored bootstrap of apps/orchestrator/src/cloud-run-runtime-store.ts knows of its events.
use mathlib.Core.Path.{subst}
use scribe_drop.Common.{
  ◌≡◌, ap, ◌∙◌, ◌⊎◌, inl, inr, String, Bool, true, false, List, [], ◌∷◌, none, some, arith, ◌is◌,
  is_iff, is_some, Bool-cases, length, find, All,
}
use scribe_drop.Common.Assoc.{lookup, put, lookup-put_same, lookup-put_other}
use scribe_drop.Common.Filed.{Filed}
use scribe_drop.Runtime.Record.{RuntimeBootstrapRecord, next_sequence}
use scribe_drop.Runtime.Store.{SessionEvent, RuntimeStore}
use scribe_drop.Runtime.Sessions.{Log, events_of, is_terminal, InOrder}

abbrev pub name_of : RuntimeBootstrapRecord → String
name_of r = r.bootstrap_request_id

-- What a stored bootstrap knows of its events.
abbrev pub Agrees : RuntimeBootstrapRecord → List SessionEvent → Type 0
Agrees r es =
    (next_sequence r.last_sequence ≡ length es)
    × InOrder es
    × ((is_some r.revoked_at ≡ true) ⊎ All (λ x. is_terminal x.kind ≡ false) es)

abbrev pub Known : String → RuntimeStore → Log → Type 0
Known b t log =
    ((lookup b t.bootstraps ≡ none) × (events_of b log ≡ []))
    ⊎ ((r : RuntimeBootstrapRecord) × (lookup b t.bootstraps ≡ some r) × Agrees r (events_of b log))

abbrev pub Consistent : RuntimeStore → Log → Type 0
Consistent t log = Filed name_of t.bootstraps × ((b : String) → Known b t log)

pub All-find :
    {A : Type 0} (P : A → Type 0) (p : A → Bool) (xs : List A) (x : A)
    → All P xs
    → find p xs ≡ some x
    → P x
All-find P p [] x a e = absurd (cc)
All-find P p (y ∷ ys) x (h, a) e = elim (Bool-cases (p y)) [
  | inl here ↦ subst P (ground arith) h
  | inr there ↦ All-find P p ys x a (ground arith)
]

-- The record under another handle is the one before, and so is what it knows.
pub Known-elsewhere :
    (b k : String) (r : RuntimeBootstrapRecord) (t u : RuntimeStore) (log : Log)
    → u.bootstraps ≡ put k r t.bootstraps
    → (k is b) ≡ false
    → Known b t log
    → Known b u log
Known-elsewhere b k r t u log e other (inl (missing, no_events)) =
    inl (ap (lookup b) e ∙ lookup-put_other k b r t.bootstraps other ∙ missing, no_events)
Known-elsewhere b k r t u log e other (inr (x, found, agrees)) =
    inr (x, ap (lookup b) e ∙ lookup-put_other k b r t.bootstraps other ∙ found, agrees)

pub Known-here :
    (b k : String) (r : RuntimeBootstrapRecord) (t u : RuntimeStore) (log : Log)
    → u.bootstraps ≡ put k r t.bootstraps
    → (k is b) ≡ true
    → Agrees r (events_of b log)
    → Known b u log
Known-here b k r t u log e same agrees =
    inr (r, ap (lookup b) e ∙ lookup-put_same k b r t.bootstraps same, agrees)

one_record :
    (b : String) (x y : RuntimeBootstrapRecord) (t : RuntimeStore)
    → lookup b t.bootstraps ≡ some x
    → lookup b t.bootstraps ≡ some y
    → x ≡ y
one_record b x y t e f = cc (e, f)

-- A known bootstrap that is stored.
pub Agrees-of :
    (b : String) (r : RuntimeBootstrapRecord) (t : RuntimeStore) (log : Log)
    → lookup b t.bootstraps ≡ some r
    → Known b t log
    → Agrees r (events_of b log)
Agrees-of b r t log found (inl (missing, _)) = absurd (cc (found, missing))
Agrees-of b r t log found (inr (x, found_x, agrees)) =
    subst (λ y. Agrees y (events_of b log)) (one_record b x r t found_x found) agrees

-- A bootstrap that was not there has no events.
pub no_events :
    (b k : String) (t : RuntimeStore) (log : Log)
    → lookup k t.bootstraps ≡ none
    → (k is b) ≡ true
    → Known b t log
    → events_of b log ≡ []
no_events b k t log missing same (inl (_, e)) = e
no_events b k t log missing same (inr (x, found, _)) =
    absurd (cc (missing, found, (is_iff k b).0 same))

pub fresh_Agrees :
    (n : RuntimeBootstrapRecord) (es : List SessionEvent)
    → n.last_sequence ≡ none
    → es ≡ []
    → Agrees n es
fresh_Agrees n [] fresh e = (ap next_sequence fresh, tt, inr tt)
fresh_Agrees n (x ∷ es) fresh e = absurd (cc)

-- ===== src/Runtime/Sessions/Order.antt =====
-- The order of the events that apps/orchestrator/src/cloud-run-runtime-store.ts accepts.
use mathlib.Core.Path.{subst, subst₂, ap₂}
use scribe_drop.Common.{
  ◌≡◌, refl, sym, ap, ◌∙◌, inl, inr, String, true, false, List, [], ◌∷◌, Option, none, some, arith,
  ◌is◌, is_iff, Bool-cases,
}
use scribe_drop.Common.Assoc.{lookup, put, values}
use scribe_drop.Common.Filed.{Filed, put-Filed, lookup-Filed, values-Filed}
use scribe_drop.Runtime.Record.{RuntimeAttemptContext, RuntimeBootstrapRecord, EventKind}
use scribe_drop.Runtime.Store.{
  SessionEvent, RuntimeStore, ApplySessionEventResult, BeginBootstrapResult, ConsumeChallengeResult,
  ConsumeInput, ApplyInput, begin_bootstrap, consume_challenge, claimed_record, session_record,
  reported, reported_as, apply_session_event,
}
use scribe_drop.Runtime.Store.Outcomes.{
  accepted_context, Begun, begin_bootstrap-Begun, Consumed, consume_challenge-Consumed, Applied,
  apply_session_event-Applied,
}
use scribe_drop.Runtime.Sessions.{
  Log, logged, Run, start, begin, consume, apply, events_of, InOrder,
}
use scribe_drop.Runtime.Sessions.Known.{
  name_of, Agrees, Known, Consistent, All-find, Known-elsewhere, Known-here, Agrees-of, no_events,
  fresh_Agrees,
}
use scribe_drop.Runtime.Sessions.Turns.{reported_Agrees}

Begun-Consistent :
    (context : RuntimeAttemptContext) (n : RuntimeBootstrapRecord) (t : RuntimeStore) (log : Log)
    (o : RuntimeStore × BeginBootstrapResult)
    → n.last_sequence ≡ none
    → Begun t context n o
    → Consistent t log
    → Consistent o.0 log
Begun-Consistent context n t log (u, a) fresh (inl (same, _)) c =
    subst (λ v. Consistent v log) (sym same) c
Begun-Consistent context n t log (u, a) fresh (inr (missing, _, e, _)) (filed, known) =
    let k = n.bootstrap_request_id in
    let stored = ap (λ v. v.bootstraps) e in
    (
      subst (Filed name_of) (sym stored) (put-Filed name_of k n t.bootstraps refl filed),
      (λ b. elim (Bool-cases (k is b)) [
        | inr other ↦ Known-elsewhere b k n t u log stored other (known b)
        | inl here ↦
            Known-here b k n t u log stored here
              (fresh_Agrees n (events_of b log) fresh (no_events b k t log missing here (known b)))
      ]),
    )

Consumed-Consistent :
    (i : ConsumeInput) (t : RuntimeStore) (log : Log) (o : RuntimeStore × ConsumeChallengeResult)
    → Consumed t i o
    → Consistent t log
    → Consistent o.0 log
unfolding claimed_record
Consumed-Consistent i t log (u, a) (inl (same, _)) c = subst (λ v. Consistent v log) (sym same) c
Consumed-Consistent i t log (u, a) (inr (r, found, _, _, _, _, stored, _, _, _)) (filed, known) =
    let k = i.bootstrap_request_id in
    let n = claimed_record r i in
    (
      subst (Filed name_of) (sym stored) (
          put-Filed name_of k n t.bootstraps (lookup-Filed name_of k r t.bootstraps filed found)
            filed),
      (λ b. elim (Bool-cases (k is b)) [
        | inr other ↦ Known-elsewhere b k n t u log stored other (known b)
        | inl here ↦ Known-here b k n t u log stored here (
            Agrees-of b r t log
              (ap (λ j. lookup j t.bootstraps) (sym ((is_iff k b).0 here)) ∙ found) (known b))
      ]),
    )

logged-none :
    (o : Option RuntimeBootstrapRecord) (e : SessionEvent) (log : Log) → logged o none e log ≡ log
logged-none none e log = refl
logged-none (some r) e log = refl

reported-name_of :
    (k : EventKind) (i : ApplyInput) (r : RuntimeBootstrapRecord)
    → name_of (reported_as k i r) ≡ name_of r
reported-name_of EventKind.terminal i r = refl
reported-name_of EventKind.ack i r = refl
reported-name_of EventKind.heartbeat i r = refl

-- The store and the log behind an accepted event.
accepted_Consistent :
    (i : ApplyInput) (t u : RuntimeStore) (log : Log) (r : RuntimeBootstrapRecord)
    → lookup r.bootstrap_request_id t.bootstraps ≡ some r
    → u.bootstraps ≡ put r.bootstrap_request_id (reported i r) t.bootstraps
    → ((es : List SessionEvent) → Agrees r es → Agrees (reported i r) (i.event ∷ es))
    → Consistent t log
    → Consistent u ((r.bootstrap_request_id, i.event) ∷ log)
accepted_Consistent i t u log r mine stored continues (filed, known) =
    let k = r.bootstrap_request_id in
    (
      subst (Filed name_of) (sym stored) (
          put-Filed name_of k (reported i r) t.bootstraps (reported-name_of i.event.kind i r)
            filed),
      (λ b. elim (Bool-cases (k is b)) [
        | inr other ↦
            Known-elsewhere b k (reported i r) t u ((k, i.event) ∷ log) stored other
              (skipped b k t log i.event other (known b))
        | inl here ↦ Known-here b k (reported i r) t u ((k, i.event) ∷ log) stored here (
            subst (Agrees (reported i r)) (sym (added b k log i.event here)) (
              continues (events_of b log) (
                Agrees-of b r t log
                  (ap (λ j. lookup j t.bootstraps) (sym ((is_iff k b).0 here)) ∙ mine) (known b))))
      ]),
    )
  where
    added :
        (b k : String) (log : Log) (e : SessionEvent)
        → (k is b) ≡ true
        → events_of b ((k, e) ∷ log) ≡ e ∷ events_of b log
    added b k log e here = ground (arith, here)

    skipped :
        (b k : String) (t : RuntimeStore) (log : Log) (e : SessionEvent)
        → (k is b) ≡ false
        → Known b t log
        → Known b t ((k, e) ∷ log)
    skipped b k t log e other h = rw other h

Applied-Consistent :
    (i : ApplyInput) (t : RuntimeStore) (log : Log) (o : RuntimeStore × ApplySessionEventResult)
    → Applied t i o
    → Consistent t log
    → Consistent o.0
        (logged (session_record t i.event.session_id) (accepted_context o.1) i.event log)
unfolding session_record
Applied-Consistent i t log (u, a) (inl (same, refused)) c =
    let found = session_record t i.event.session_id in
    subst₂ Consistent (sym same)
      (sym (ap (λ x. logged found x i.event log) refused ∙ logged-none found i.event log)) c
Applied-Consistent i t log (u, a)
      (inr (r, context, (session, _, _, _, _, live, next, turn, _), stored, e)) c =
    let mine =
      All-find (λ x. lookup x.bootstrap_request_id t.bootstraps ≡ some x) _ (values t.bootstraps) r
        (values-Filed name_of t.bootstraps c.0) session in
    subst (Consistent u) (sym (ap₂ (λ x y. logged x y i.event log) session (ap accepted_context e)))
      (accepted_Consistent i t u log r mine (ap (λ v. v.bootstraps) stored)
        (λ es. reported_Agrees i.event.kind i r es refl live next turn) c)

Run-Consistent :
    (s t : RuntimeStore) (log : Log) → s.bootstraps ≡ [] → Run s t log → Consistent t log
unfolding lookup
Run-Consistent s t _ e start =
    (subst (Filed name_of) (sym e) tt, (λ b. inl (ap (lookup b) e, refl)))
Run-Consistent s _ log e (begin {t} context r u run fresh eq) =
    subst (λ v. Consistent v log) (sym eq)
      (Begun-Consistent context r t log (begin_bootstrap t context r) fresh
        (begin_bootstrap-Begun t context r) (Run-Consistent s t log e run))
Run-Consistent s _ log e (consume {t} i u run eq) =
    subst (λ v. Consistent v log) (sym eq)
      (Consumed-Consistent i t log (consume_challenge t i) (consume_challenge-Consumed t i)
        (Run-Consistent s t log e run))
Run-Consistent s _ _ e (apply {t} {log} i u log' run eq logged_eq) =
    subst₂ Consistent (sym eq) (sym logged_eq) (
      Applied-Consistent i t log (apply_session_event t i) (apply_session_event-Applied t i)
        (Run-Consistent s t log e run))

ordered : (b : String) (t : RuntimeStore) (log : Log) → Known b t log → InOrder (events_of b log)
ordered b t log (inl (_, e)) = subst InOrder (sym e) tt
ordered b t log (inr (_, _, (_, order, _))) = order

-- From a store without bootstraps, whatever operations it gets and in whatever order, as long as each
-- bootstrap that it is given begins without events, the events that it accepts for one bootstrap are numbered from 0 without a gap: the first is no heartbeat, only the
-- first is an acknowledgement, and nothing is accepted after a terminal one.
pub events-InOrder :
    (s t : RuntimeStore) (log : Log) (b : String)
    → s.bootstraps ≡ []
    → Run s t log
    → InOrder (events_of b log)
events-InOrder s t log b e run = ordered b t log ((Run-Consistent s t log e run).1 b)

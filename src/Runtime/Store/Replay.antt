-- ===== src/Runtime/Store/Replay.antt =====
-- What apps/orchestrator/src/cloud-run-runtime-store.ts answers to an event that it gets again.
use mathlib.Core.Path.{subst}
use scribe_drop.Common.{
  ◌≡◌, refl, sym, ap, ◌∙◌, inl, inr, String, Bool, true, List, [], ◌∷◌, some, arith, is_iff,
  Bool-cases, find,
}
use scribe_drop.Common.Assoc.{lookup, put, values, lookup-put_same}
use scribe_drop.Common.Filed.{Filed, lookup-Filed}
use scribe_drop.Controller.Record.{Timestamp}
use scribe_drop.Runtime.Record.{RuntimeAttemptContext, RuntimeBootstrapRecord, EventKind, same_kind}
use scribe_drop.Runtime.Store.{
  SessionEvent, StoredSessionEvent, RuntimeStore, ApplySessionEventResult, ApplyInput, text_is,
  session_record, same_key, replay_of, put_event, replayed, reported_as, reported, reported_context,
  apply_session_event,
}
use scribe_drop.Runtime.Store.Outcomes.{
  accepted_context, Applied, apply_session_event-Applied, store_after,
}

same_kind_refl : (k : EventKind) → same_kind k k ≡ true
same_kind_refl EventKind.ack = refl
same_kind_refl EventKind.heartbeat = refl
same_kind_refl EventKind.terminal = refl

abbrev pub stored_as : SessionEvent → String → StoredSessionEvent
stored_as e digest = record {
  event_session = e.session_id;
  kind = e.kind;
  sequence = e.sequence;
  digest = digest;
}

own_key : (e : SessionEvent) (digest : String) → same_key e (stored_as e digest) ≡ true
unfolding same_key
own_key e digest = ground (arith, (is_iff e.session_id e.session_id).1 refl, same_kind_refl e.kind)

pub find-put_event :
    (e : SessionEvent) (digest : String) (xs : List StoredSessionEvent)
    → find (same_key e) (put_event e digest xs) ≡ some (stored_as e digest)
unfolding put_event
find-put_event e digest [] = ground (arith, own_key e digest)
find-put_event e digest (x ∷ xs) = ground (arith, own_key e digest, find-put_event e digest xs)

-- The first of a kind, replaced by another of the kind, is still the first.
find-put :
    (p : RuntimeBootstrapRecord → Bool) (r n : RuntimeBootstrapRecord)
    (m : List (String × RuntimeBootstrapRecord))
    → Filed (λ x. x.bootstrap_request_id) m
    → find p (values m) ≡ some r
    → p n ≡ true
    → find p (values (put r.bootstrap_request_id n m)) ≡ some n
unfolding put lookup
find-put p r n [] f e h = absurd (cc)
find-put p r n ((k, x) ∷ m) (own, once, f) e h = elim (Bool-cases (p x)) [
  | inl first ↦
      let named =
        (is_iff k r.bootstrap_request_id).1
          (sym own ∙ ap (λ y. y.bootstrap_request_id) (found_first first)) in
      ground (arith, named, h)
  | inr other ↦ ground (arith, h, find-put p r n m f (rw other at e) h)
]
  where
    found_first : p x ≡ true → x ≡ r
    found_first first = cc (rw first at e)

find_sound :
    (p : RuntimeBootstrapRecord → Bool) (xs : List RuntimeBootstrapRecord)
    (r : RuntimeBootstrapRecord)
    → find p xs ≡ some r
    → p r ≡ true
find_sound p [] r e = absurd (cc)
find_sound p (x ∷ xs) r e = elim (Bool-cases (p x)) [
  | inl first ↦ subst (λ y. p y ≡ true) (found_first first) first
  | inr other ↦ find_sound p xs r (rw other at e)
]
  where
    found_first : p x ≡ true → x ≡ r
    found_first first = cc (rw first at e)

-- A report keeps the session and the execution.
reported_keeps :
    (k : EventKind) (i : ApplyInput) (r : RuntimeBootstrapRecord)
    → ((reported_as k i r).session_id ≡ r.session_id)
      × ((reported_as k i r).execution_handle ≡ r.execution_handle)
reported_keeps EventKind.terminal i r = (refl, refl)
reported_keeps EventKind.ack i r = (refl, refl)
reported_keeps EventKind.heartbeat i r = (refl, refl)

session_record-store_after :
    (s : RuntimeStore) (i : ApplyInput) (r : RuntimeBootstrapRecord)
    (context : RuntimeAttemptContext)
    → Filed (λ x. x.bootstrap_request_id) s.bootstraps
    → session_record s i.event.session_id ≡ some r
    → session_record (store_after s i r context) i.event.session_id ≡ some (reported i r)
unfolding session_record
session_record-store_after s i r context f e =
    find-put (λ x. text_is x.session_id i.event.session_id) r (reported i r) s.bootstraps f e
      (ap (λ o. text_is o i.event.session_id) (reported_keeps i.event.kind i r).0
        ∙ find_sound (λ x. text_is x.session_id i.event.session_id) (values s.bootstraps) r e)

-- The same event at another time, with another token.
abbrev pub resent : ApplyInput → Timestamp → String → ApplyInput
resent i now token = record i { now = now; token_hash = token }

apply_known_replay :
    (t : RuntimeStore) (i : ApplyInput) (now : Timestamp) (token : String)
    (r : RuntimeBootstrapRecord) (next : RuntimeAttemptContext)
    → replay_of t i.event ≡ some (stored_as i.event i.digest)
    → session_record t i.event.session_id ≡ some r
    → lookup r.execution_handle t.attempts ≡ some next
    → apply_session_event t (resent i now token) ≡ (t, ApplySessionEventResult.duplicate next)
unfolding apply_session_event replayed
apply_known_replay t i now token r next e session found =
    rw (e, session, found, apply_session_event, replayed, (is_iff i.digest i.digest).1 refl) refl

accepted_once :
    (a : ApplySessionEventResult) (x c : RuntimeAttemptContext)
    → a ≡ ApplySessionEventResult.accepted x
    → accepted_context a ≡ some c
    → x ≡ c
accepted_once a x c e f = cc (ap accepted_context e, f)

replayed_after :
    (s : RuntimeStore) (i : ApplyInput) (o : RuntimeStore × ApplySessionEventResult)
    (c : RuntimeAttemptContext) (now : Timestamp) (token : String)
    → Filed (λ x. x.bootstrap_request_id) s.bootstraps
    → Filed (λ x. x.execution_handle) s.attempts
    → accepted_context o.1 ≡ some c
    → Applied s i o
    → apply_session_event o.0 (resent i now token) ≡ (o.0, ApplySessionEventResult.duplicate c)
unfolding replay_of
replayed_after s i (t, a) c now token f g e (inl (_, refused)) = absurd (cc (e, refused))
replayed_after s i (t, a) c now token f g e
      (inr (r, context, (session, _, _, _, _, _, _, _, found), after, ok)) =
    let next = reported_context i.event.kind context in
    let u = store_after s i r context in
    let named =
      lookup-Filed (λ x. x.execution_handle) r.execution_handle context s.attempts g found in
    let again =
      apply_known_replay u i now token (reported i r) next
        (find-put_event i.event i.digest s.events)
        (session_record-store_after s i r context f session)
        (ap (λ h. lookup h u.attempts) (reported_keeps i.event.kind i r).1
          ∙ lookup-put_same context.execution_handle r.execution_handle next s.attempts
              ((is_iff context.execution_handle r.execution_handle).1 named)) in
    subst
      (λ v. apply_session_event v (resent i now token) ≡ (v, ApplySessionEventResult.duplicate c))
      (sym after)
      (again ∙ ap (λ x. (u, ApplySessionEventResult.duplicate x)) (accepted_once a next c ok e))

-- In a store whose bootstraps and attempts stand under their own names, an event that was accepted may
-- be sent again before anything else happens, at any time and with any token: the answer is then that of
-- the first time, as a duplicate, and the store stays as it is.
pub apply_session_event-again :
    (s : RuntimeStore) (i : ApplyInput) (c : RuntimeAttemptContext) (now : Timestamp)
    (token : String)
    → Filed (λ x. x.bootstrap_request_id) s.bootstraps
    → Filed (λ x. x.execution_handle) s.attempts
    → accepted_context (apply_session_event s i).1 ≡ some c
    → apply_session_event (apply_session_event s i).0 (resent i now token)
      ≡ ((apply_session_event s i).0, ApplySessionEventResult.duplicate c)
apply_session_event-again s i c now token f g e =
    replayed_after s i (apply_session_event s i) c now token f g e (apply_session_event-Applied s i)

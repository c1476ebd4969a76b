-- ===== src/Runtime/Store/Outcomes.antt =====
-- What each operation of apps/orchestrator/src/cloud-run-runtime-store.ts has done, by its result.
use scribe_drop.Common.{
  ◌≡◌, refl, ◌⊎◌, inl, inr, String, true, false, not, ◌&&◌, ◌||◌, Option, none, some, arith, ◌==◌,
  ◌is◌, is_iff, is_some, Bool-cases, if-cases,
}
use scribe_drop.Common.Assoc.{lookup, put}
use scribe_drop.Runtime.Record.{
  AttemptStatus, RuntimeAttemptContext, RuntimeBootstrapRecord, next_sequence, not_later,
}
use scribe_drop.Runtime.Store.{
  StoredSessionEvent, RuntimeStore, BeginBootstrapResult, ConsumeChallengeResult,
  ApplySessionEventResult, ConsumeInput, ApplyInput, awaits, begin_bootstrap, claimed_record,
  with_status, consume_unclaimed, consume_found, consume_challenge, text_is, session_record,
  replay_of, replayed, is_over, out_of_turn, reported, reported_context, apply_in_turn, apply_known,
  apply_new, apply_session_event, put_event,
}

abbrev pub accepted_context : ApplySessionEventResult → Option RuntimeAttemptContext
accepted_context (ApplySessionEventResult.accepted c) = some c
accepted_context _ = none

-- The event is the next one of a live session.
abbrev pub InTurn :
    RuntimeStore → ApplyInput → RuntimeBootstrapRecord → RuntimeAttemptContext → Type 0
InTurn s i r context =
    (session_record s i.event.session_id ≡ some r)
    × (replay_of s i.event ≡ none)
    × (r.execution_handle ≡ i.event.execution_handle)
    × (text_is r.session_token_hash i.token_hash ≡ true)
    × (is_over r.session_expires_at i.now ≡ false)
    × (r.revoked_at ≡ none)
    × (i.event.sequence ≡ next_sequence r.last_sequence)
    × (out_of_turn r.last_sequence i.event.kind i.event.sequence ≡ false)
    × (lookup r.execution_handle s.attempts ≡ some context)

-- The store behind an event that was accepted.
abbrev pub store_after :
    RuntimeStore → ApplyInput → RuntimeBootstrapRecord → RuntimeAttemptContext → RuntimeStore
store_after s i r context = record {
  attempts = put context.execution_handle (reported_context i.event.kind context) s.attempts;
  bootstraps = put r.bootstrap_request_id (reported i r) s.bootstraps;
  events = put_event i.event i.digest s.events;
}

abbrev pub Applied : RuntimeStore → ApplyInput → RuntimeStore × ApplySessionEventResult → Type 0
Applied s i (t, a) =
    ((t ≡ s) × (accepted_context a ≡ none))
    ⊎ ((r : RuntimeBootstrapRecord) × (context : RuntimeAttemptContext) × InTurn s i r context
        × (t ≡ store_after s i r context)
        × (a ≡ ApplySessionEventResult.accepted (reported_context i.event.kind context)))

is_some-none : {A : Type 0} → (o : Option A) → is_some o ≡ false → o ≡ none
is_some-none none e = refl
is_some-none (some a) e = absurd (ground arith)

replayed-accepted :
    (s : RuntimeStore) (i : ApplyInput) (stored : StoredSessionEvent)
    (o : Option RuntimeBootstrapRecord)
    → accepted_context (replayed s i stored o) ≡ none
unfolding replayed
replayed-accepted s i stored none = refl
replayed-accepted s i stored (some r) = go (lookup r.execution_handle s.attempts) refl
  where
    go :
        (o : Option RuntimeAttemptContext)
        → lookup r.execution_handle s.attempts ≡ o
        → accepted_context (replayed s i stored (some r)) ≡ none
    go none e = rw (e, replayed) refl
    go (some context) e = rw (e, replayed) (ground arith)

apply_in_turn-Applied :
    (s : RuntimeStore) (i : ApplyInput) (r : RuntimeBootstrapRecord)
    (o : Option RuntimeAttemptContext)
    → ((context : RuntimeAttemptContext) → o ≡ some context → InTurn s i r context)
    → Applied s i (apply_in_turn s i r o)
unfolding apply_in_turn
apply_in_turn-Applied s i r none p = inl (refl, refl)
apply_in_turn-Applied s i r (some context) p = inr (r, context, p context refl, refl, refl)

apply_known-Applied :
    (s : RuntimeStore) (i : ApplyInput) (r : RuntimeBootstrapRecord)
    → session_record s i.event.session_id ≡ some r
    → replay_of s i.event ≡ none
    → Applied s i (apply_known s i r)
unfolding apply_known
apply_known-Applied s i r e fresh =
    let handle = is_iff r.execution_handle i.event.execution_handle in
    if-cases (Applied s i) (not (r.execution_handle is i.event.execution_handle)) _ _
      (inl (refl, refl))
      λ ours.
        if-cases (Applied s i)
          (not (text_is r.session_token_hash i.token_hash && is_some r.session_expires_at)) _ _
          (inl (refl, refl))
          λ known.
            if-cases (Applied s i) (is_over r.session_expires_at i.now || is_some r.revoked_at) _ _
              (inl (refl, refl))
              λ live.
                if-cases (Applied s i) (not (i.event.sequence == next_sequence r.last_sequence)) _ _
                  (inl (refl, refl))
                  λ next.
                    if-cases (Applied s i)
                      (out_of_turn r.last_sequence i.event.kind i.event.sequence) _ _
                      (inl (refl, refl))
                      λ turn.
                        apply_in_turn-Applied s i r (lookup r.execution_handle s.attempts)
                          λ context found. (
                            e,
                            fresh,
                            handle.0 (ground arith),
                            ground arith,
                            ground arith,
                            is_some-none r.revoked_at (ground arith),
                            ground arith,
                            turn,
                            found,
                          )

apply_new-Applied :
    (s : RuntimeStore) (i : ApplyInput) (o : Option RuntimeBootstrapRecord)
    → session_record s i.event.session_id ≡ o
    → replay_of s i.event ≡ none
    → Applied s i (apply_new s i o)
unfolding apply_new
apply_new-Applied s i none e fresh = inl (refl, refl)
apply_new-Applied s i (some r) e fresh = apply_known-Applied s i r e fresh

-- An event either leaves the store as it was and is not accepted, or it is accepted: then it is new, it
-- names the execution and shows the token of a session that has neither expired nor been revoked, it
-- has the number after the session's last and its turn, and the store files the event, its number and,
-- where it is the terminal one, the end of the session and of the attempt.
pub apply_session_event-Applied :
    (s : RuntimeStore) (i : ApplyInput) → Applied s i (apply_session_event s i)
unfolding apply_session_event
apply_session_event-Applied s i = go (replay_of s i.event) refl
  where
    go :
        (o : Option StoredSessionEvent)
        → replay_of s i.event ≡ o
        → Applied s i (apply_session_event s i)
    go none e =
        rw (e, apply_session_event)
          (rw e at (apply_new-Applied s i (session_record s i.event.session_id) refl e))
    go (some stored) e =
        rw (e, apply_session_event)
          (inl (refl, replayed-accepted s i stored (session_record s i.event.session_id)))

abbrev pub begun_record : BeginBootstrapResult → Option RuntimeBootstrapRecord
begun_record (BeginBootstrapResult.accepted r) = some r
begun_record _ = none

abbrev pub Begun :
    RuntimeStore
    → RuntimeAttemptContext
    → RuntimeBootstrapRecord
    → RuntimeStore × BeginBootstrapResult
    → Type 0
Begun s context r (t, a) =
    ((t ≡ s) × (begun_record a ≡ none))
    ⊎ ((lookup r.bootstrap_request_id s.bootstraps ≡ none)
        × (awaits (lookup r.execution_handle s.attempts) context ≡ true)
        × (t ≡ record s { bootstraps = put r.bootstrap_request_id r s.bootstraps })
        × (a ≡ BeginBootstrapResult.accepted r))

-- A bootstrap either leaves the store as it was and is not accepted, or its request is new and an
-- attempt waits for it under the same job and attempt, and its record is stored.
pub begin_bootstrap-Begun :
    (s : RuntimeStore) (context : RuntimeAttemptContext) (r : RuntimeBootstrapRecord)
    → Begun s context r (begin_bootstrap s context r)
unfolding begin_bootstrap
begin_bootstrap-Begun s context r = go (lookup r.bootstrap_request_id s.bootstraps) refl
  where
    go :
        (o : Option RuntimeBootstrapRecord)
        → lookup r.bootstrap_request_id s.bootstraps ≡ o
        → Begun s context r (begin_bootstrap s context r)
    go (some existing) e =
        rw (e, begin_bootstrap)
          (rw e at (
            if-cases (Begun s context r)
              (existing.request_digest is r.request_digest
                && existing.execution_handle is r.execution_handle)
              (s, BeginBootstrapResult.duplicate existing) (s, BeginBootstrapResult.conflict)
              (inl (refl, refl)) (λ _. inl (refl, refl))))
    go none e = elim (Bool-cases (awaits (lookup r.execution_handle s.attempts) context)) [
      | inl waits ↦ rw (e, begin_bootstrap, waits) (inr (refl, refl, refl, refl))
      | inr other ↦ rw (e, begin_bootstrap, other) (inl (refl, refl))
    ]

abbrev pub claimed_of : ConsumeChallengeResult → Option RuntimeBootstrapRecord
claimed_of (ConsumeChallengeResult.accepted r) = some r
claimed_of _ = none

abbrev pub Consumed : RuntimeStore → ConsumeInput → RuntimeStore × ConsumeChallengeResult → Type 0
Consumed s i (t, a) =
    ((t ≡ s) × (claimed_of a ≡ none))
    ⊎ ((r : RuntimeBootstrapRecord) × (lookup i.bootstrap_request_id s.bootstraps ≡ some r)
        × (r.execution_handle ≡ i.execution_handle)
        × (r.challenge_id ≡ i.challenge_id)
        × (r.claim_digest ≡ none)
        × (not_later r.challenge_expires_at i.now ≡ false)
        × (t.bootstraps ≡ put i.bootstrap_request_id (claimed_record r i) s.bootstraps)
        × (t.attempts ≡ with_status r.execution_handle AttemptStatus.running s.attempts)
        × (t.events ≡ s.events)
        × (a ≡ ConsumeChallengeResult.accepted (claimed_record r i)))

consume_found-Consumed :
    (s : RuntimeStore) (i : ConsumeInput) (r : RuntimeBootstrapRecord) (claim : Option String)
    → lookup i.bootstrap_request_id s.bootstraps ≡ some r
    → r.execution_handle ≡ i.execution_handle
    → r.challenge_id ≡ i.challenge_id
    → r.claim_digest ≡ claim
    → Consumed s i (consume_found s i r claim)
unfolding consume_found consume_unclaimed
consume_found-Consumed s i r (some d) e h c unclaimed =
    if-cases (Consumed s i) (d is i.claim_digest) _ _ (inl (refl, refl)) (λ _. inl (refl, refl))
consume_found-Consumed s i r none e h c unclaimed =
    if-cases (Consumed s i) (not_later r.challenge_expires_at i.now) _ _ (inl (refl, refl))
      (λ early. inr (r, e, h, c, unclaimed, early, refl, refl, refl, refl))

-- A claim either leaves the store as it was, or it names the execution and the challenge of a stored
-- bootstrap that has not been claimed and whose challenge has not expired; then the bootstrap gets its
-- session, and its attempt runs.
pub consume_challenge-Consumed :
    (s : RuntimeStore) (i : ConsumeInput) → Consumed s i (consume_challenge s i)
unfolding consume_challenge
consume_challenge-Consumed s i = go (lookup i.bootstrap_request_id s.bootstraps) refl
  where
    go :
        (o : Option RuntimeBootstrapRecord)
        → lookup i.bootstrap_request_id s.bootstraps ≡ o
        → Consumed s i (consume_challenge s i)
    go none e = rw (e, consume_challenge) (inl (refl, refl))
    go (some r) e =
        let handle = is_iff r.execution_handle i.execution_handle in
        let challenge = is_iff r.challenge_id i.challenge_id in
        elim (Bool-cases
          (r.execution_handle is i.execution_handle && r.challenge_id is i.challenge_id)) [
            | inr other ↦ rw (e, consume_challenge, other) (inl (refl, refl))
            | inl ours ↦
                rw (e, consume_challenge, ours)
                  (rw e at (
                    consume_found-Consumed s i r r.claim_digest e (handle.0 (ground arith))
                      (challenge.0 (ground arith)) refl))
          ]

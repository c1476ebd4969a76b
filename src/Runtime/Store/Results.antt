-- ===== src/Runtime/Store/Results.antt =====
-- What can be read in the store of apps/orchestrator/src/cloud-run-runtime-store.ts behind each
-- operation, field by field.
use scribe_drop.Common.{
  ℕ, ◌≡◌, refl, sym, ap, ◌∙◌, ◌⊎◌, inl, inr, String, true, false, List, Option, none, some, arith,
  ◌is◌, is_iff, if◌then◌else◌, Option-cases, Bool-cases,
}
use scribe_drop.Common.Assoc.{lookup, lookup-put, lookup-put_same, lookup-put_other}
use scribe_drop.Runtime.Record.{
  AttemptStatus, RuntimeAttemptContext, RuntimeBootstrapRecord, EventKind, is_pending,
  next_sequence, not_later,
}
use scribe_drop.Runtime.Sessions.{fits, is_terminal}
use scribe_drop.Runtime.Store.{
  RuntimeStore, BeginBootstrapResult, ConsumeChallengeResult, ApplySessionEventResult, ConsumeInput,
  ApplyInput, awaits, begin_bootstrap, claimed_record, with_status, consume_challenge, text_is,
  session_record, replay_of, is_over, out_of_turn, apply_session_event, get_attempt, get_bootstrap,
  reported, reported_context,
}
use scribe_drop.Runtime.Store.Replay.{stored_as, find-put_event}
use scribe_drop.Runtime.Store.Outcomes.{
  accepted_context, Applied, apply_session_event-Applied, begun_record, Begun,
  begin_bootstrap-Begun, claimed_of, Consumed, consume_challenge-Consumed,
}

awaits_fields :
    (o : Option RuntimeAttemptContext) (c : RuntimeAttemptContext)
    → awaits o c ≡ true
    → (x : RuntimeAttemptContext) × (o ≡ some x)
      × (x.status ≡ AttemptStatus.pending_bootstrap)
      × (x.job_id ≡ c.job_id)
      × (x.attempt_id ≡ c.attempt_id)
unfolding awaits
awaits_fields none c e = absurd (cc)
awaits_fields (some x) c e =
    let job = is_iff x.job_id c.job_id in
    let attempt = is_iff x.attempt_id c.attempt_id in
    (x, refl, pending x.status (ground arith), job.0 (ground arith), attempt.0 (ground arith))
  where
    pending : (t : AttemptStatus) → is_pending t ≡ true → t ≡ AttemptStatus.pending_bootstrap
    pending AttemptStatus.pending_bootstrap e = refl
    pending AttemptStatus.running e = absurd (cc)
    pending AttemptStatus.terminal_reported e = absurd (cc)

-- The outcomes of a bootstrap, read under the request `k`.
abbrev pub Opened :
    RuntimeStore
    → RuntimeAttemptContext
    → RuntimeBootstrapRecord
    → String
    → RuntimeStore × BeginBootstrapResult
    → Type 0
Opened s context r k (t, a) =
    ((t ≡ s) × (begun_record a ≡ none))
    ⊎ ((a ≡ BeginBootstrapResult.accepted r)
        × (get_bootstrap s r.bootstrap_request_id ≡ none)
        × ((x : RuntimeAttemptContext) × (get_attempt s r.execution_handle ≡ some x)
            × (x.status ≡ AttemptStatus.pending_bootstrap)
            × (x.job_id ≡ context.job_id)
            × (x.attempt_id ≡ context.attempt_id))
        × (get_bootstrap t k ≡ (if r.bootstrap_request_id is k then some r else get_bootstrap s k))
        × (t.attempts ≡ s.attempts)
        × (t.events ≡ s.events))

opened :
    (s : RuntimeStore) (context : RuntimeAttemptContext) (r : RuntimeBootstrapRecord) (k : String)
    (o : RuntimeStore × BeginBootstrapResult)
    → Begun s context r o
    → Opened s context r k o
unfolding get_bootstrap get_attempt
opened s context r k (t, a) (inl kept) = inl kept
opened s context r k (t, a) (inr (fresh, waits, after, ok)) = inr (
  ok,
  fresh,
  awaits_fields (lookup r.execution_handle s.attempts) context waits,
  ap (λ u. lookup k u.bootstraps) after ∙ lookup-put r.bootstrap_request_id k r s.bootstraps,
  ap (λ u. u.attempts) after,
  ap (λ u. u.events) after,
)

-- A bootstrap either leaves the store as it was and is not accepted, or its request is new and a stored
-- attempt of its execution is still pending under the job and the attempt of the given context; then its
-- record, and no other, is added.
pub begin_bootstrap-Opened :
    (s : RuntimeStore) (context : RuntimeAttemptContext) (r : RuntimeBootstrapRecord) (k : String)
    → Opened s context r k (begin_bootstrap s context r)
begin_bootstrap-Opened s context r k =
    opened s context r k (begin_bootstrap s context r) (begin_bootstrap-Begun s context r)

abbrev pub running_attempt : Option RuntimeAttemptContext → Option RuntimeAttemptContext
running_attempt none = none
running_attempt (some x) = some (record x { status = AttemptStatus.running })

-- The record of a bootstrap with the session of a claim.
abbrev pub with_session : RuntimeBootstrapRecord → ConsumeInput → RuntimeBootstrapRecord
with_session r i = record {
  bootstrap_request_id = r.bootstrap_request_id;
  request_digest = r.request_digest;
  execution_handle = r.execution_handle;
  execution_name = r.execution_name;
  job_name = r.job_name;
  public_key = r.public_key;
  public_key_digest = r.public_key_digest;
  challenge_id = r.challenge_id;
  challenge_hash = r.challenge_hash;
  challenge_expires_at = r.challenge_expires_at;
  session_id = some i.session_id;
  session_token_hash = some i.session_token_hash;
  session_issued_at = some i.session_issued_at;
  session_expires_at = some i.session_expires_at;
  claim_digest = some i.claim_digest;
  last_sequence = r.last_sequence;
  revoked_at = r.revoked_at;
  terminal_digest = r.terminal_digest;
}

-- The outcomes of a claim, read under `k`.
abbrev pub Claimed :
    RuntimeStore → ConsumeInput → String → RuntimeStore × ConsumeChallengeResult → Type 0
Claimed s i k (t, a) =
    ((t ≡ s) × (claimed_of a ≡ none))
    ⊎ ((r : RuntimeBootstrapRecord) × (get_bootstrap s i.bootstrap_request_id ≡ some r)
        × (r.execution_handle ≡ i.execution_handle)
        × (r.challenge_id ≡ i.challenge_id)
        × (r.claim_digest ≡ none)
        × (not_later r.challenge_expires_at i.now ≡ false)
        × (a ≡ ConsumeChallengeResult.accepted (with_session r i))
        × (get_bootstrap t k
            ≡ (if i.bootstrap_request_id is k then some (with_session r i) else get_bootstrap s k))
        × (get_attempt t k ≡ (
            if r.execution_handle is k then running_attempt (get_attempt s k) else get_attempt s k))
        × (t.events ≡ s.events))

lookup-with_status :
    (h k : String) (m : List (String × RuntimeAttemptContext))
    → lookup k (with_status h AttemptStatus.running m)
      ≡ (if h is k then running_attempt (lookup k m) else lookup k m)
unfolding with_status
lookup-with_status h k m = elim (Bool-cases (h is k)) [
  | inl same ↦
      let e = ap (λ j. lookup j m) ((is_iff h k).0 same) in
      elim (Option-cases (lookup h m)) [
        | inl missing ↦ rw (with_status, missing, same, sym e ∙ missing) refl
        | inr (x, found) ↦
            rw (with_status, found, same, sym e ∙ found)
              (lookup-put_same h k (record x { status = AttemptStatus.running }) m same)
      ]
  | inr other ↦ elim (Option-cases (lookup h m)) [
    | inl missing ↦ rw (with_status, missing, other) refl
    | inr (x, found) ↦
        rw (with_status, found, other)
          (lookup-put_other h k (record x { status = AttemptStatus.running }) m other)
  ]
]

claimed :
    (s : RuntimeStore) (i : ConsumeInput) (k : String) (o : RuntimeStore × ConsumeChallengeResult)
    → Consumed s i o
    → Claimed s i k o
unfolding get_bootstrap get_attempt claimed_record
claimed s i k (t, a) (inl kept) = inl kept
claimed s i k (t, a)
      (inr (r, found, handle, challenge, open_, early, stored, running, events, ok)) =
    inr (
      r,
      found,
      handle,
      challenge,
      open_,
      early,
      ok,
      ap (lookup k) stored ∙ lookup-put i.bootstrap_request_id k (with_session r i) s.bootstraps,
      ap (lookup k) running ∙ lookup-with_status r.execution_handle k s.attempts,
      events,
    )

-- A claim either leaves the store as it was and is not accepted, or it names the execution and the
-- challenge of a stored bootstrap that has not been claimed and whose challenge has not expired; then
-- this bootstrap gets the session, the token's hash, the two times and the digest of the claim and keeps
-- its other fields, its attempt runs, and nothing else changes.
pub consume_challenge-Claimed :
    (s : RuntimeStore) (i : ConsumeInput) (k : String) → Claimed s i k (consume_challenge s i)
consume_challenge-Claimed s i k =
    claimed s i k (consume_challenge s i) (consume_challenge-Consumed s i)

-- The record of a session behind an event: a terminal one ends the session.
abbrev pub with_event : RuntimeBootstrapRecord → ApplyInput → RuntimeBootstrapRecord
with_event r i = record r {
  last_sequence = some i.event.sequence;
  revoked_at = if is_terminal i.event.kind then some i.now else r.revoked_at;
  terminal_digest = if is_terminal i.event.kind then some i.digest else r.terminal_digest;
}

-- The attempt behind an event: a terminal one ends it.
abbrev pub after_event : RuntimeAttemptContext → EventKind → RuntimeAttemptContext
after_event x kind = record x {
  status = if is_terminal kind then AttemptStatus.terminal_reported else x.status;
}

-- The outcomes of an event, read under `k`.
abbrev pub EventFiled :
    RuntimeStore → ApplyInput → String → RuntimeStore × ApplySessionEventResult → Type 0
EventFiled s i k (t, a) =
    ((t ≡ s) × (accepted_context a ≡ none))
    ⊎ ((r : RuntimeBootstrapRecord) × (x : RuntimeAttemptContext) × (session_record s
            i.event.session_id
          ≡ some r)
        × (get_attempt s r.execution_handle ≡ some x)
        × (r.execution_handle ≡ i.event.execution_handle)
        × (r.session_token_hash ≡ some i.token_hash)
        × (is_over r.session_expires_at i.now ≡ false)
        × (r.revoked_at ≡ none)
        × (i.event.sequence ≡ next_sequence r.last_sequence)
        × (fits i.event.kind i.event.sequence ≡ true)
        × (replay_of s i.event ≡ none)
        × (replay_of t i.event ≡ some (stored_as i.event i.digest))
        × (a ≡ ApplySessionEventResult.accepted (after_event x i.event.kind))
        × (get_bootstrap t k
            ≡ (if r.bootstrap_request_id is k then some (with_event r i) else get_bootstrap s k))
        × (get_attempt t k ≡ (
            if x.execution_handle is k
            then some (after_event x i.event.kind)
            else get_attempt s k)))

text_is-some : (o : Option String) (t : String) → text_is o t ≡ true → o ≡ some t
text_is-some none t e = absurd (cc)
text_is-some (some u) t e = ap some ((is_iff u t).0 e)

reported-with_event : (r : RuntimeBootstrapRecord) (i : ApplyInput) → reported i r ≡ with_event r i
reported-with_event r i = go i.event.kind refl
  where
    go : (k : EventKind) → i.event.kind ≡ k → reported i r ≡ with_event r i
    go EventKind.ack e = rw e refl
    go EventKind.heartbeat e = rw e refl
    go EventKind.terminal e = rw e refl

reported_context-after_event :
    (x : RuntimeAttemptContext) (k : EventKind) → reported_context k x ≡ after_event x k
reported_context-after_event x EventKind.ack = refl
reported_context-after_event x EventKind.heartbeat = refl
reported_context-after_event x EventKind.terminal = refl

turn-fits :
    (o : Option ℕ) (k : EventKind) (n : ℕ)
    → n ≡ next_sequence o
    → out_of_turn o k n ≡ false
    → fits k n ≡ true
unfolding out_of_turn
turn-fits none EventKind.ack n e h = ground arith
turn-fits none EventKind.heartbeat n e h = absurd (cc)
turn-fits none EventKind.terminal n e h = refl
turn-fits (some last) EventKind.ack n e h = absurd (cc)
turn-fits (some last) EventKind.heartbeat n e h = ground arith
turn-fits (some last) EventKind.terminal n e h = refl

filed :
    (s : RuntimeStore) (i : ApplyInput) (k : String) (o : RuntimeStore × ApplySessionEventResult)
    → Applied s i o
    → EventFiled s i k o
unfolding get_bootstrap get_attempt replay_of
filed s i k (t, a) (inl kept) = inl kept
filed s i k (t, a)
      (inr (r, x, (session, fresh, own, token, live, open_, next, turn, found), after, ok)) =
    let event = reported-with_event r i in
    let attempt = reported_context-after_event x i.event.kind in
    inr (
      r,
      x,
      session,
      found,
      own,
      text_is-some r.session_token_hash i.token_hash token,
      live,
      open_,
      next,
      turn-fits r.last_sequence i.event.kind i.event.sequence next turn,
      fresh,
      ap (λ u. replay_of u i.event) after ∙ find-put_event i.event i.digest s.events,
      ok ∙ ap (λ c. ApplySessionEventResult.accepted c) attempt,
      ap (λ u. lookup k u.bootstraps) after
          ∙ lookup-put r.bootstrap_request_id k (reported i r) s.bootstraps
          ∙ ap (λ n. if r.bootstrap_request_id is k then some n else lookup k s.bootstraps) event,
      ap (λ u. lookup k u.attempts) after
          ∙ lookup-put x.execution_handle k (reported_context i.event.kind x) s.attempts
          ∙ ap (λ n. if x.execution_handle is k then some n else lookup k s.attempts) attempt,
    )

-- An event either leaves the store as it was and is not accepted, or it is accepted: then it is new, it
-- names the execution and shows the token of a session that has neither expired nor been revoked, it has
-- the number after the session's last, an acknowledgement being the first and a heartbeat not; the
-- session then counts it, a terminal one revokes the session at its time and ends the attempt, the event
-- is filed under its digest, and no other session and no other attempt changes.
pub apply_session_event-Filed :
    (s : RuntimeStore) (i : ApplyInput) (k : String) → EventFiled s i k (apply_session_event s i)
apply_session_event-Filed s i k =
    filed s i k (apply_session_event s i) (apply_session_event-Applied s i)

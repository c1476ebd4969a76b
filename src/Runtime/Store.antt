-- ===== src/Runtime/Store.antt =====
-- The store of apps/orchestrator/src/cloud-run-runtime-store.ts: attempts by execution handle,
-- bootstraps by request, and the session events that were accepted. A clone of a value is the value.
pub mod Outcomes
pub mod Replay
pub mod Results
use scribe_drop.Common.{
  ℕ, String, Bool, true, false, not, ◌&&◌, ◌||◌, List, [], ◌∷◌, Option, none, some, leb, ◌==◌, ◌is◌,
  if◌then◌else◌, find, is_some,
}
use scribe_drop.Common.Assoc.{lookup, put, values}
use scribe_drop.Controller.Record.{Timestamp}
use scribe_drop.Runtime.Record.{
  AttemptStatus, RuntimeAttemptContext, RuntimeBootstrapRecord, EventKind, same_kind, is_pending,
  next_sequence, not_later,
}

-- What all three kinds of events have; the rest of an event is read through its digest only.
pub record SessionEvent : Type 0 where
  pub kind : EventKind
  pub session_id : String
  pub execution_handle : String
  pub sequence : ℕ

-- An entry of the map of events. The text of its key determines session, kind and sequence, for the
-- latter two have no colon.
pub record StoredSessionEvent : Type 0 where
  pub event_session : String
  pub kind : EventKind
  pub sequence : ℕ
  pub digest : String

pub record RuntimeStore : Type 0 where
  pub attempts : List (String × RuntimeAttemptContext)
  pub bootstraps : List (String × RuntimeBootstrapRecord)
  pub events : List StoredSessionEvent

pub data BeginBootstrapResult : Type 0 where
  accepted duplicate : RuntimeBootstrapRecord → BeginBootstrapResult
  conflict not_found : BeginBootstrapResult

pub data ConsumeChallengeResult : Type 0 where
  accepted duplicate : RuntimeBootstrapRecord → ConsumeChallengeResult
  conflict expired not_found : ConsumeChallengeResult

-- `cancelRequested` is a field of the context.
pub data ApplySessionEventResult : Type 0 where
  accepted duplicate : RuntimeAttemptContext → ApplySessionEventResult
  conflict expired rejected stale : ApplySessionEventResult

pub record ConsumeInput : Type 0 where
  pub bootstrap_request_id : String
  pub challenge_id : String
  pub claim_digest : String
  pub execution_handle : String
  pub now : Timestamp
  pub session_id : String
  pub session_token_hash : String
  pub session_issued_at : Timestamp
  pub session_expires_at : Timestamp

pub record ApplyInput : Type 0 where
  pub event : SessionEvent
  pub digest : String
  pub token_hash : String
  pub now : Timestamp

unfoldable pub get_attempt : RuntimeStore → String → Option RuntimeAttemptContext
get_attempt s handle = lookup handle s.attempts

unfoldable pub get_bootstrap : RuntimeStore → String → Option RuntimeBootstrapRecord
get_bootstrap s request = lookup request s.bootstraps

-- The attempt waits for this bootstrap.
unfoldable pub awaits : Option RuntimeAttemptContext → RuntimeAttemptContext → Bool
awaits none context = false
awaits (some attempt) context =
    is_pending attempt.status
    && (attempt.job_id is context.job_id && attempt.attempt_id is context.attempt_id)

unfoldable pub begin_bootstrap :
    RuntimeStore
    → RuntimeAttemptContext
    → RuntimeBootstrapRecord
    → RuntimeStore × BeginBootstrapResult
unfolding awaits
begin_bootstrap s context r = elim (lookup r.bootstrap_request_id s.bootstraps) [
  | some existing ↦
      if existing.request_digest is r.request_digest
        && existing.execution_handle is r.execution_handle
      then (s, BeginBootstrapResult.duplicate existing)
      else (s, BeginBootstrapResult.conflict)
  | none ↦
      if awaits (lookup r.execution_handle s.attempts) context
      then (
        record s { bootstraps = put r.bootstrap_request_id r s.bootstraps },
        BeginBootstrapResult.accepted r,
      )
      else (s, BeginBootstrapResult.not_found)
]

unfoldable pub claimed_record : RuntimeBootstrapRecord → ConsumeInput → RuntimeBootstrapRecord
claimed_record r i = record r {
  session_id = some i.session_id;
  session_token_hash = some i.session_token_hash;
  session_issued_at = some i.session_issued_at;
  session_expires_at = some i.session_expires_at;
  claim_digest = some i.claim_digest;
}

-- The attempts, with the one of a handle, if there is one, in another status.
unfoldable pub with_status :
    String
    → AttemptStatus
    → List (String × RuntimeAttemptContext)
    → List (String × RuntimeAttemptContext)
with_status handle status attempts = elim (lookup handle attempts) [
  | none ↦ attempts
  | some attempt ↦ put handle (record attempt { status = status }) attempts
]

-- A challenge that nobody has claimed.
unfoldable pub consume_unclaimed :
    RuntimeStore → ConsumeInput → RuntimeBootstrapRecord → RuntimeStore × ConsumeChallengeResult
unfolding claimed_record with_status
consume_unclaimed s i r =
    if not_later r.challenge_expires_at i.now then (s, ConsumeChallengeResult.expired) else (
      record s {
        bootstraps = put i.bootstrap_request_id (claimed_record r i) s.bootstraps;
        attempts = with_status r.execution_handle AttemptStatus.running s.attempts;
      },
      ConsumeChallengeResult.accepted (claimed_record r i),
    )

unfoldable pub consume_found :
    RuntimeStore
    → ConsumeInput
    → RuntimeBootstrapRecord
    → Option String
    → RuntimeStore × ConsumeChallengeResult
unfolding consume_unclaimed
consume_found s i r (some claim) =
    if claim is i.claim_digest
    then (s, ConsumeChallengeResult.duplicate r)
    else (s, ConsumeChallengeResult.conflict)
consume_found s i r none = consume_unclaimed s i r

unfoldable pub consume_challenge :
    RuntimeStore → ConsumeInput → RuntimeStore × ConsumeChallengeResult
unfolding consume_found
consume_challenge s i = elim (lookup i.bootstrap_request_id s.bootstraps) [
  | none ↦ (s, ConsumeChallengeResult.not_found)
  | some r ↦
      if r.execution_handle is i.execution_handle && r.challenge_id is i.challenge_id
      then consume_found s i r r.claim_digest
      else (s, ConsumeChallengeResult.conflict)
]

abbrev pub text_is : Option String → String → Bool
text_is none t = false
text_is (some u) t = u is t

-- The bootstrap whose session it is.
unfoldable pub session_record : RuntimeStore → String → Option RuntimeBootstrapRecord
session_record s session = find (λ r. text_is r.session_id session) (values s.bootstraps)

unfoldable pub same_key : SessionEvent → StoredSessionEvent → Bool
same_key e stored =
    stored.event_session is e.session_id
    && (same_kind stored.kind e.kind && stored.sequence == e.sequence)

unfoldable pub replay_of : RuntimeStore → SessionEvent → Option StoredSessionEvent
unfolding same_key
replay_of s e = find (same_key e) s.events

-- `map.set`, under the key of the event.
unfoldable pub put_event : SessionEvent → String → List StoredSessionEvent → List StoredSessionEvent
unfolding same_key
put_event e digest [] =
    record { event_session = e.session_id; kind = e.kind; sequence = e.sequence; digest = digest }
    ∷ []
put_event e digest (x ∷ xs) =
    let rest = put_event e digest xs in
    if same_key e x
    then record {
      event_session = e.session_id;
      kind = e.kind;
      sequence = e.sequence;
      digest = digest;
    }
      ∷ xs
    else x ∷ rest

-- The answer to an event that was accepted before.
unfoldable pub replayed :
    RuntimeStore
    → ApplyInput
    → StoredSessionEvent
    → Option RuntimeBootstrapRecord
    → ApplySessionEventResult
replayed s i stored none = ApplySessionEventResult.conflict
replayed s i stored (some r) = elim (lookup r.execution_handle s.attempts) [
  | none ↦ ApplySessionEventResult.conflict
  | some context ↦
      if stored.digest is i.digest
      then ApplySessionEventResult.duplicate context
      else ApplySessionEventResult.conflict
]

abbrev pub is_over : Option Timestamp → Timestamp → Bool
is_over none now = false
is_over (some t) now = not_later t now

-- An event comes too early, too late or out of turn: the first is not a heartbeat, and only the first,
-- with number 0, is an acknowledgement.
unfoldable pub out_of_turn : Option ℕ → EventKind → ℕ → Bool
out_of_turn none EventKind.ack n = not (n == 0)
out_of_turn none EventKind.heartbeat n = true
out_of_turn none EventKind.terminal n = false
out_of_turn (some last) EventKind.ack n = true
out_of_turn (some last) EventKind.heartbeat n = false
out_of_turn (some last) EventKind.terminal n = false

abbrev pub reported_as : EventKind → ApplyInput → RuntimeBootstrapRecord → RuntimeBootstrapRecord
reported_as EventKind.terminal i r = record r {
  last_sequence = some i.event.sequence;
  revoked_at = some i.now;
  terminal_digest = some i.digest;
}
reported_as _ i r = record r { last_sequence = some i.event.sequence }

abbrev pub reported : ApplyInput → RuntimeBootstrapRecord → RuntimeBootstrapRecord
reported i r = reported_as i.event.kind i r

abbrev pub reported_context : EventKind → RuntimeAttemptContext → RuntimeAttemptContext
reported_context EventKind.terminal context = record context {
  status = AttemptStatus.terminal_reported;
}
reported_context _ context = context

unfoldable pub apply_in_turn :
    RuntimeStore
    → ApplyInput
    → RuntimeBootstrapRecord
    → Option RuntimeAttemptContext
    → RuntimeStore × ApplySessionEventResult
unfolding put_event
apply_in_turn s i r none = (s, ApplySessionEventResult.rejected)
apply_in_turn s i r (some context) =
    let next = reported_context i.event.kind context in
    (
      record {
        attempts = put context.execution_handle next s.attempts;
        bootstraps = put r.bootstrap_request_id (reported i r) s.bootstraps;
        events = put_event i.event i.digest s.events;
      },
      ApplySessionEventResult.accepted next,
    )

-- The session's record is known; its tests in their order.
unfoldable pub apply_known :
    RuntimeStore → ApplyInput → RuntimeBootstrapRecord → RuntimeStore × ApplySessionEventResult
unfolding apply_in_turn out_of_turn
apply_known s i r =
    if not (r.execution_handle is i.event.execution_handle)
    then (s, ApplySessionEventResult.rejected)
    else if not (text_is r.session_token_hash i.token_hash && is_some r.session_expires_at)
    then (s, ApplySessionEventResult.rejected)
    else if is_over r.session_expires_at i.now || is_some r.revoked_at
    then (s, ApplySessionEventResult.expired)
    else if not (i.event.sequence == next_sequence r.last_sequence)
    then (s, ApplySessionEventResult.stale)
    else if out_of_turn r.last_sequence i.event.kind i.event.sequence
    then (s, ApplySessionEventResult.stale)
    else apply_in_turn s i r (lookup r.execution_handle s.attempts)

unfoldable pub apply_new :
    RuntimeStore
    → ApplyInput
    → Option RuntimeBootstrapRecord
    → RuntimeStore × ApplySessionEventResult
unfolding apply_known
apply_new s i none = (s, ApplySessionEventResult.rejected)
apply_new s i (some r) = apply_known s i r

unfoldable pub apply_session_event :
    RuntimeStore → ApplyInput → RuntimeStore × ApplySessionEventResult
unfolding session_record replay_of replayed apply_new
apply_session_event s i =
    let r = session_record s i.event.session_id in
    elim (replay_of s i.event) [ some stored ↦ (s, replayed s i stored r) | none ↦ apply_new s i r ]

-- ===== src/Runtime/Sessions.antt =====
-- Runs of the store of apps/orchestrator/src/cloud-run-runtime-store.ts, with the events that it has
-- accepted for each bootstrap.
pub mod Known
pub mod Turns
pub mod Order
use mathlib.Core.Path.{subst, subst₂, ap₂}
use scribe_drop.Common.{
  ℕ, zero, suc, ◌+◌, ◌≡◌, refl, sym, ap, ◌∙◌, ◌⊎◌, inl, inr, String, Bool, true, false, not, List,
  [], ◌∷◌, Option, none, some, arith, ◌==◌, ◌is◌, is_iff, is_some, Bool-cases, if◌then◌else◌,
  length, find, All,
}
use scribe_drop.Common.Assoc.{lookup, put, values, lookup-put_same, lookup-put_other}
use scribe_drop.Common.Filed.{Filed, put-Filed, lookup-Filed, values-Filed}
use scribe_drop.Runtime.Record.{
  RuntimeAttemptContext, RuntimeBootstrapRecord, EventKind, next_sequence,
}
use scribe_drop.Runtime.Store.{
  SessionEvent, RuntimeStore, ApplySessionEventResult, BeginBootstrapResult, ConsumeChallengeResult,
  ConsumeInput, ApplyInput, begin_bootstrap, consume_challenge, claimed_record, text_is,
  session_record, out_of_turn, reported, reported_as, apply_session_event,
}
use scribe_drop.Runtime.Store.Outcomes.{
  accepted_context, Begun, begin_bootstrap-Begun, Consumed, consume_challenge-Consumed, Applied,
  apply_session_event-Applied,
}

-- Accepted events, newest first, each with the bootstrap of its session.
abbrev pub Log : Type 0
Log = List (String × SessionEvent)

abbrev pub logged :
    Option RuntimeBootstrapRecord → Option RuntimeAttemptContext → SessionEvent → Log → Log
logged (some r) (some context) e log = (r.bootstrap_request_id, e) ∷ log
logged _ none e log = log
logged none _ e log = log

-- The operations of the store, in any order; a bootstrap begins with no event, as the
-- service makes it.
pub data Run (s : RuntimeStore) : RuntimeStore → Log → Type 0 where
  start : Run s s []
  begin :
      {t : RuntimeStore} {log : Log} (context : RuntimeAttemptContext) (r : RuntimeBootstrapRecord)
      (u : RuntimeStore)
      → Run s t log
      → r.last_sequence ≡ none
      → u ≡ (begin_bootstrap t context r).0
      → Run s u log
  consume :
      {t : RuntimeStore} {log : Log} (i : ConsumeInput) (u : RuntimeStore)
      → Run s t log
      → u ≡ (consume_challenge t i).0
      → Run s u log
  apply :
      {t : RuntimeStore} {log : Log} (i : ApplyInput) (u : RuntimeStore) (log' : Log)
      → Run s t log
      → u ≡ (apply_session_event t i).0
      → log'
        ≡ logged
            (session_record t i.event.session_id)
            (accepted_context (apply_session_event t i).1)
            i.event
            log
      → Run s u log'

abbrev pub events_of : String → Log → List SessionEvent
events_of b [] = []
events_of b ((c, e) ∷ log) = let rest = events_of b log in if c is b then e ∷ rest else rest

abbrev pub is_terminal : EventKind → Bool
is_terminal EventKind.terminal = true
is_terminal _ = false

-- An acknowledgement comes first, and a heartbeat does not.
abbrev pub fits : EventKind → ℕ → Bool
fits EventKind.ack n = n == 0
fits EventKind.heartbeat n = not (n == 0)
fits EventKind.terminal n = true

-- Events, newest first, numbered from 0 without a gap, with a terminal one only as the last.
abbrev pub InOrder : List SessionEvent → Type 0
InOrder [] = Unit {0}
InOrder (e ∷ es) =
    (e.sequence ≡ length es)
    × (fits e.kind (length es) ≡ true)
    × All (λ x. is_terminal x.kind ≡ false) es
    × InOrder es

-- ===== src/Runtime/Sessions/Turns.antt =====
-- The turns of the events of apps/orchestrator/src/cloud-run-runtime-store.ts.
use scribe_drop.Common.{
  ℕ, ◌≡◌, refl, ap, ◌⊎◌, inl, inr, true, false, List, ◌∷◌, Option, none, some, arith, is_some,
  length, All,
}
use scribe_drop.Runtime.Record.{RuntimeBootstrapRecord, EventKind, next_sequence}
use scribe_drop.Runtime.Store.{SessionEvent, ApplyInput, out_of_turn, reported_as}
use scribe_drop.Runtime.Sessions.{is_terminal, fits, InOrder}
use scribe_drop.Runtime.Sessions.Known.{Agrees}

turn_fits :
    (last : Option ℕ) (k : EventKind) (n m : ℕ)
    → n ≡ next_sequence last
    → m ≡ n
    → out_of_turn last k n ≡ false
    → fits k m ≡ true
unfolding out_of_turn
turn_fits none EventKind.ack n m e f turn = ground arith
turn_fits (some l) EventKind.ack n m e f turn = ground arith
turn_fits none EventKind.heartbeat n m e f turn = ground arith
turn_fits (some l) EventKind.heartbeat n m e f turn = ground arith
turn_fits _ EventKind.terminal n m e f turn = refl

open_session :
    (r : RuntimeBootstrapRecord) (es : List SessionEvent)
    → r.revoked_at ≡ none
    → (is_some r.revoked_at ≡ true) ⊎ All (λ x. is_terminal x.kind ≡ false) es
    → All (λ x. is_terminal x.kind ≡ false) es
open_session r es live (inl ended) = absurd (ground (arith, live, ended))
open_session r es live (inr running) = running

-- An event in its turn continues the events before it.
pub reported_Agrees :
    (k : EventKind) (i : ApplyInput) (r : RuntimeBootstrapRecord) (es : List SessionEvent)
    → i.event.kind ≡ k
    → r.revoked_at ≡ none
    → i.event.sequence ≡ next_sequence r.last_sequence
    → out_of_turn r.last_sequence i.event.kind i.event.sequence ≡ false
    → Agrees r es
    → Agrees (reported_as k i r) (i.event ∷ es)
reported_Agrees k i r es kind live next turn (count, order, ends) =
    let before = open_session r es live ends in
    let place =
      turn_fits r.last_sequence i.event.kind i.event.sequence (length es) next (omega arith) turn in
    go k kind (omega arith, place, before, order) before
  where
    go :
        (k : EventKind)
        → i.event.kind ≡ k
        → InOrder (i.event ∷ es)
        → All (λ x. is_terminal x.kind ≡ false) es
        → Agrees (reported_as k i r) (i.event ∷ es)
    go EventKind.terminal e o before = (omega (arith, o.0), o, inl refl)
    go EventKind.ack e o before = (omega (arith, o.0), o, inr (ap is_terminal e, before))
    go EventKind.heartbeat e o before = (omega (arith, o.0), o, inr (ap is_terminal e, before))

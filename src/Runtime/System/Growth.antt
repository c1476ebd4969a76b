-- ===== src/Runtime/System/Growth.antt =====
-- What becomes of a bootstrap while methods of apps/orchestrator/src/cloud-run-runtime-service.ts run.
use mathlib.Core.Path.{subst}
use scribe_drop.Common.{
  ◌≡◌, refl, sym, ap, ◌∙◌, ◌⊎◌, inl, inr, String, none, some, ◌is◌, is_iff, Bool-cases,
}
use scribe_drop.Common.Assoc.{lookup, put, values, lookup-put_same, lookup-put_other}
use scribe_drop.Common.Filed.{Filed, values-Filed}
use scribe_drop.Runtime.Record.{RuntimeAttemptContext, RuntimeBootstrapRecord, EventKind}
use scribe_drop.Runtime.Store.{
  RuntimeStore, ConsumeInput, ApplyInput, begin_bootstrap, consume_challenge, apply_session_event,
  claimed_record, reported, reported_as, session_record, text_is,
}
use scribe_drop.Runtime.Store.Outcomes.{
  begin_bootstrap-Begun, consume_challenge-Consumed, apply_session_event-Applied,
}
use scribe_drop.Runtime.Sessions.Known.{name_of, All-find}

-- The fields that a bootstrap keeps from its beginning.
abbrev pub SameOrigin : RuntimeBootstrapRecord → RuntimeBootstrapRecord → Type 0
SameOrigin r x =
    (x.bootstrap_request_id ≡ r.bootstrap_request_id)
    × (x.request_digest ≡ r.request_digest)
    × (x.execution_handle ≡ r.execution_handle)
    × (x.execution_name ≡ r.execution_name)
    × (x.job_name ≡ r.job_name)
    × (x.public_key ≡ r.public_key)
    × (x.challenge_id ≡ r.challenge_id)
    × (x.challenge_hash ≡ r.challenge_hash)

-- Its session, once it is claimed.
abbrev pub SameSession : RuntimeBootstrapRecord → RuntimeBootstrapRecord → Type 0
SameSession r x =
    (x.claim_digest ≡ r.claim_digest)
    × (x.session_id ≡ r.session_id)
    × (x.session_expires_at ≡ r.session_expires_at)
    × (x.session_token_hash ≡ r.session_token_hash)

abbrev pub Grown : RuntimeBootstrapRecord → RuntimeBootstrapRecord → Type 0
Grown r x = SameOrigin r x × ((r.claim_digest ≡ none) ⊎ SameSession r x)

abbrev pub Grows : RuntimeStore → RuntimeStore → Type 0
Grows s t =
    (k : String) (r : RuntimeBootstrapRecord)
    → lookup k s.bootstraps ≡ some r
    → (x : RuntimeBootstrapRecord) × (lookup k t.bootstraps ≡ some x) × Grown r x

Grown-refl : (r : RuntimeBootstrapRecord) → Grown r r
Grown-refl r = ((refl, refl, refl, refl, refl, refl, refl, refl), inr (refl, refl, refl, refl))

pub Grows-same : (s t : RuntimeStore) → t ≡ s → Grows s t
Grows-same s t e k r found = (r, ap (λ u. lookup k u.bootstraps) e ∙ found, Grown-refl r)

-- A store in which one record has been put.
Grows-put :
    (s t : RuntimeStore) (j : String) (n : RuntimeBootstrapRecord)
    → t.bootstraps ≡ put j n s.bootstraps
    → ((r : RuntimeBootstrapRecord) → lookup j s.bootstraps ≡ some r → Grown r n)
    → Grows s t
Grows-put s t j n e grown k r found = elim (Bool-cases (j is k)) [
  | inl same ↦ (
    n,
    ap (lookup k) e ∙ lookup-put_same j k n s.bootstraps same,
    grown r (ap (λ i. lookup i s.bootstraps) ((is_iff j k).0 same) ∙ found),
  )
  | inr other ↦
      (r, ap (lookup k) e ∙ lookup-put_other j k n s.bootstraps other ∙ found, Grown-refl r)
]

abbrev pub FiledStore : RuntimeStore → Type 0
FiledStore s = Filed name_of s.bootstraps

pub begin_bootstrap-Grows :
    (s : RuntimeStore) (context : RuntimeAttemptContext) (r : RuntimeBootstrapRecord)
    → Grows s (begin_bootstrap s context r).0
begin_bootstrap-Grows s context r = elim (begin_bootstrap-Begun s context r) [
  | inl (same, _) ↦ Grows-same s (begin_bootstrap s context r).0 same
  | inr (missing, _, e, _) ↦
      Grows-put s (begin_bootstrap s context r).0 r.bootstrap_request_id r
        (ap (λ u. u.bootstraps) e) (λ x found. absurd (cc))
]

claimed-Grown :
    (r : RuntimeBootstrapRecord) (i : ConsumeInput)
    → r.claim_digest ≡ none
    → Grown r (claimed_record r i)
unfolding claimed_record
claimed-Grown r i e = ((refl, refl, refl, refl, refl, refl, refl, refl), inl e)

pub consume_challenge-Grows :
    (s : RuntimeStore) (i : ConsumeInput) → Grows s (consume_challenge s i).0
consume_challenge-Grows s i = elim (consume_challenge-Consumed s i) [
  | inl (same, _) ↦ Grows-same s (consume_challenge s i).0 same
  | inr (r, found, _, _, open_, _, e, _, _, _) ↦
      Grows-put s (consume_challenge s i).0 i.bootstrap_request_id (claimed_record r i) e (λ x h.
        let same : r ≡ x = cc in
        subst (λ y. Grown y (claimed_record r i)) same (claimed-Grown r i open_))
]

reported-Grown :
    (k : EventKind) (i : ApplyInput) (r : RuntimeBootstrapRecord) → Grown r (reported_as k i r)
reported-Grown EventKind.ack i r =
    ((refl, refl, refl, refl, refl, refl, refl, refl), inr (refl, refl, refl, refl))
reported-Grown EventKind.heartbeat i r =
    ((refl, refl, refl, refl, refl, refl, refl, refl), inr (refl, refl, refl, refl))
reported-Grown EventKind.terminal i r =
    ((refl, refl, refl, refl, refl, refl, refl, refl), inr (refl, refl, refl, refl))

-- The record of a session is stored under its own name.
pub session-lookup :
    (s : RuntimeStore) (session : String) (r : RuntimeBootstrapRecord)
    → FiledStore s
    → session_record s session ≡ some r
    → lookup r.bootstrap_request_id s.bootstraps ≡ some r
unfolding session_record
session-lookup s session r filed found =
    All-find (λ x. lookup (name_of x) s.bootstraps ≡ some x) (λ x. text_is x.session_id session)
      (values s.bootstraps) r (values-Filed name_of s.bootstraps filed) found

pub apply_session_event-Grows :
    (s : RuntimeStore) (i : ApplyInput) → FiledStore s → Grows s (apply_session_event s i).0
apply_session_event-Grows s i filed = elim (apply_session_event-Applied s i) [
  | inl (same, _) ↦ Grows-same s (apply_session_event s i).0 same
  | inr (r, context, turn, e, _) ↦
      Grows-put s (apply_session_event s i).0 r.bootstrap_request_id (reported i r)
        (ap (λ u. u.bootstraps) e)
        (λ x h.
          let stored = session-lookup s i.event.session_id r filed turn.0 in
          let same : r ≡ x = cc in
          subst (λ y. Grown y (reported i r)) same (reported-Grown i.event.kind i r))
]

Grown-trans : (r x y : RuntimeBootstrapRecord) → Grown r x → Grown x y → Grown r y
Grown-trans r x y ((a, b, c, d, e, f, g, h), k) ((a', b', c', d', e', f', g', h'), k') =
    ((a' ∙ a, b' ∙ b, c' ∙ c, d' ∙ d, e' ∙ e, f' ∙ f, g' ∙ g, h' ∙ h), sessions k k')
  where
    sessions :
        (r.claim_digest ≡ none) ⊎ SameSession r x
        → (x.claim_digest ≡ none) ⊎ SameSession x y
        → (r.claim_digest ≡ none) ⊎ SameSession r y
    sessions (inl e) l = inl e
    sessions (inr (p, q, u, v)) (inl e) = inl (sym p ∙ e)
    sessions (inr (p, q, u, v)) (inr (p', q', u', v')) = inr (p' ∙ p, q' ∙ q, u' ∙ u, v' ∙ v)

pub Grows-trans : (s t u : RuntimeStore) → Grows s t → Grows t u → Grows s u
Grows-trans s t u g h k r found =
    let (x, found_x, grown) = g k r found in
    let (y, found_y, grown') = h k x found_x in (y, found_y, Grown-trans r x y grown grown')

-- ===== src/Runtime/System/Methods/Consuming.antt =====
-- What a claim of a challenge leaves in the store of
-- apps/orchestrator/src/cloud-run-runtime-store.ts.
use scribe_drop.Common.{
  ◌≡◌, refl, ◌∙◌, inl, inr, String, Option, none, some, ◌is◌, if-cases, is_iff, Option-cases, ◌&&◌,
}
use scribe_drop.Common.Assoc.{lookup, lookup-put_same}
use scribe_drop.Runtime.Record.{not_later, RuntimeBootstrapRecord}
use scribe_drop.Runtime.Store.{
  RuntimeStore, ConsumeInput, ConsumeChallengeResult, consume_challenge, consume_found,
  consume_unclaimed, claimed_record,
}
use scribe_drop.Runtime.Service.Claim.{claim}

-- The record that a claim answers with.
abbrev pub answered_record : ConsumeChallengeResult → Option RuntimeBootstrapRecord
answered_record (ConsumeChallengeResult.accepted r) = some r
answered_record (ConsumeChallengeResult.duplicate r) = some r
answered_record ConsumeChallengeResult.conflict = none
answered_record ConsumeChallengeResult.expired = none
answered_record ConsumeChallengeResult.not_found = none

-- It is the stored one.
abbrev pub Stored :
    ConsumeInput → RuntimeBootstrapRecord → RuntimeStore × ConsumeChallengeResult → Type 0
Stored i r (t, a) = answered_record a ≡ some r → lookup i.bootstrap_request_id t.bootstraps ≡ some r

consume_unclaimed-Stored :
    (s : RuntimeStore) (i : ConsumeInput) (x r : RuntimeBootstrapRecord)
    → Stored i r (consume_unclaimed s i x)
unfolding consume_unclaimed
consume_unclaimed-Stored s i x r =
    if-cases (Stored i r) (not_later x.challenge_expires_at i.now) _ _ (λ h. absurd (cc))
      λ _ h.
        lookup-put_same i.bootstrap_request_id i.bootstrap_request_id (claimed_record x i)
          s.bootstraps ((is_iff i.bootstrap_request_id i.bootstrap_request_id).1 refl)
        ∙ h

consume_found-Stored :
    (s : RuntimeStore) (i : ConsumeInput) (x r : RuntimeBootstrapRecord) (claim : Option String)
    → lookup i.bootstrap_request_id s.bootstraps ≡ some x
    → Stored i r (consume_found s i x claim)
unfolding consume_found
consume_found-Stored s i x r none found = consume_unclaimed-Stored s i x r
consume_found-Stored s i x r (some claim) found =
    if-cases (Stored i r) (claim is i.claim_digest) _ _ (λ h. found ∙ h) (λ _ h. absurd (cc))

pub consume_challenge-Stored :
    (s : RuntimeStore) (i : ConsumeInput) (r : RuntimeBootstrapRecord)
    → Stored i r (consume_challenge s i)
unfolding consume_challenge
consume_challenge-Stored s i r = elim (Option-cases (lookup i.bootstrap_request_id s.bootstraps)) [
  | inl missing ↦ rw (missing, consume_challenge) (λ h. absurd (cc))
  | inr (x, found) ↦
      rw (found, consume_challenge)
        (if-cases (Stored i r)
          (x.execution_handle is i.execution_handle && x.challenge_id is i.challenge_id)
          (consume_found s i x x.claim_digest) (s, ConsumeChallengeResult.conflict)
          (consume_found-Stored s i x r x.claim_digest found) (λ _ h. absurd (cc)))
]

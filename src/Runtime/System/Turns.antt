-- ===== src/Runtime/System/Turns.antt =====
-- The calls of the methods of apps/orchestrator/src/cloud-run-runtime-service.ts keep sessions secured.
use mathlib.Core.Path.{subst}
use scribe_drop.Common.{◌≡◌, refl, sym, ap, ◌∙◌, inl, inr, String, true, Option, none, some, All}
use scribe_drop.Common.Assoc.{put, values}
use scribe_drop.Common.Filed.{Filed, put-Filed, lookup-Filed, put-All, lookup-All}
use scribe_drop.Runtime.Record.{RuntimeAttemptContext, RuntimeBootstrapRecord, EventKind}
use scribe_drop.Runtime.Store.{
  RuntimeStore, ConsumeInput, ApplyInput, begin_bootstrap, consume_challenge, apply_session_event,
  claimed_record, reported, reported_as, get_attempt,
}
use scribe_drop.Runtime.Store.Outcomes.{
  begin_bootstrap-Begun, consume_challenge-Consumed, apply_session_event-Applied,
}
use scribe_drop.Runtime.Sessions.Known.{name_of}
use scribe_drop.Runtime.Service.Base.{Program, Ports, token_of, challenge_fields}
use scribe_drop.Runtime.Service.Claim.{signature_valid}
use scribe_drop.Runtime.System.Growth.{
  SameOrigin, SameSession, Grows, Grows-same, begin_bootstrap-Grows, consume_challenge-Grows,
  apply_session_event-Grows, session-lookup,
}
use scribe_drop.Runtime.System.{advance}
use scribe_drop.Runtime.System.Tokens.{
  SecuredBy, Secured, SecuredStore, Vouched, Well, signature-Grown,
}

module _ (ports : Ports) where
  Secured-unclaimed : (r : RuntimeBootstrapRecord) → r.claim_digest ≡ none → Secured ports r
  Secured-unclaimed r e = subst (SecuredBy ports r) (sym e) tt

  SecuredStore-put :
      (s t : RuntimeStore) (k : String) (r : RuntimeBootstrapRecord)
      → t.bootstraps ≡ put k r s.bootstraps
      → name_of r ≡ k
      → Secured ports r
      → SecuredStore ports s
      → SecuredStore ports t
  SecuredStore-put s t k r e own secured (filed, all) = (
    subst (Filed name_of) (sym e) (put-Filed name_of k r s.bootstraps own filed),
    subst (λ m. All (Secured ports) (values m)) (sym e)
        (put-All (Secured ports) k r s.bootstraps secured all),
  )

  SecuredStore-begin :
      (s : RuntimeStore) (context : RuntimeAttemptContext) (r : RuntimeBootstrapRecord)
      → r.claim_digest ≡ none
      → SecuredStore ports s
      → SecuredStore ports (begin_bootstrap s context r).0
  SecuredStore-begin s context r e secured = elim (begin_bootstrap-Begun s context r) [
    | inl (same, _) ↦ subst (SecuredStore ports) (sym same) secured
    | inr (_, _, stored, _) ↦
        SecuredStore-put s (begin_bootstrap s context r).0 r.bootstrap_request_id r
          (ap (λ u. u.bootstraps) stored) refl (Secured-unclaimed r e) secured
  ]

  claimed-Secured :
      (r : RuntimeBootstrapRecord) (i : ConsumeInput) (signature : String)
      → r.bootstrap_request_id ≡ i.bootstrap_request_id
      → i.session_token_hash
        ≡ ports.secrets.hash
            (token_of ports.secrets i.bootstrap_request_id i.claim_digest i.session_id)
      → signature_valid ports r signature ≡ true
      → Secured ports (claimed_record r i)
  unfolding claimed_record signature_valid challenge_fields
  claimed-Secured r i signature own token valid =
      (i.session_id, refl, rw (own, token) refl, (signature, valid))

  claimed-name :
      (r : RuntimeBootstrapRecord) (i : ConsumeInput) → name_of (claimed_record r i) ≡ name_of r
  unfolding claimed_record
  claimed-name r i = refl

  SecuredStore-consume :
      (s : RuntimeStore) (i : ConsumeInput)
      → i.session_token_hash
        ≡ ports.secrets.hash
            (token_of ports.secrets i.bootstrap_request_id i.claim_digest i.session_id)
      → Vouched ports s i
      → SecuredStore ports s
      → SecuredStore ports (consume_challenge s i).0
  SecuredStore-consume s i token (x, found_x, (signature, valid)) secured =
      elim (consume_challenge-Consumed s i) [
        | inl (same, _) ↦ subst (SecuredStore ports) (sym same) secured
        | inr (r, found, _, _, _, _, stored, _, _, _) ↦
            let same : x ≡ r = cc in
            let own = lookup-Filed name_of i.bootstrap_request_id r s.bootstraps secured.0 found in
            SecuredStore-put s (consume_challenge s i).0 i.bootstrap_request_id (claimed_record r i)
              stored (claimed-name r i ∙ own)
              (claimed-Secured r i signature own token
                (subst (λ y. signature_valid ports y signature ≡ true) same valid))
              secured
      ]

  Secured-kept :
      (r x : RuntimeBootstrapRecord)
      → SameOrigin r x
      → SameSession r x
      → Secured ports r
      → Secured ports x
  Secured-kept r x origin (claim, id, expires, token) secured =
      subst (SecuredBy ports x) (sym claim) (go r.claim_digest secured)
    where
      go : (o : Option String) → SecuredBy ports r o → SecuredBy ports x o
      go none _ = tt
      go (some d) (session, named, made, (signature, valid)) = (
        session,
        id ∙ named,
        rw origin.0 (token ∙ made),
        (signature, signature-Grown ports r x signature origin valid),
      )

  reported-Secured :
      (k : EventKind) (i : ApplyInput) (r : RuntimeBootstrapRecord)
      → Secured ports r
      → Secured ports (reported_as k i r)
  reported-Secured EventKind.ack i r secured =
      Secured-kept r (reported_as EventKind.ack i r)
        (refl, refl, refl, refl, refl, refl, refl, refl) (refl, refl, refl, refl) secured
  reported-Secured EventKind.heartbeat i r secured =
      Secured-kept r (reported_as EventKind.heartbeat i r)
        (refl, refl, refl, refl, refl, refl, refl, refl) (refl, refl, refl, refl) secured
  reported-Secured EventKind.terminal i r secured =
      Secured-kept r (reported_as EventKind.terminal i r)
        (refl, refl, refl, refl, refl, refl, refl, refl) (refl, refl, refl, refl) secured

  reported-name :
      (k : EventKind) (i : ApplyInput) (r : RuntimeBootstrapRecord)
      → name_of (reported_as k i r) ≡ name_of r
  reported-name EventKind.ack i r = refl
  reported-name EventKind.heartbeat i r = refl
  reported-name EventKind.terminal i r = refl

  SecuredStore-apply :
      (s : RuntimeStore) (i : ApplyInput)
      → SecuredStore ports s
      → SecuredStore ports (apply_session_event s i).0
  SecuredStore-apply s i secured = elim (apply_session_event-Applied s i) [
    | inl (same, _) ↦ subst (SecuredStore ports) (sym same) secured
    | inr (r, context, turn, stored, _) ↦
        let found = session-lookup s i.event.session_id r secured.0 turn.0 in
        SecuredStore-put s (apply_session_event s i).0 r.bootstrap_request_id (reported i r)
          (ap (λ u. u.bootstraps) stored) (reported-name i.event.kind i r)
          (reported-Secured i.event.kind i r
            (lookup-All (Secured ports) r.bootstrap_request_id r s.bootstraps secured.1 found))
          secured
  ]

  -- A call leaves the store secured and grown, and the method with what it may still do.
  pub advance-Well :
      (s : RuntimeStore) (p : Program)
      → SecuredStore ports s
      → Well ports s p
      → SecuredStore ports (advance s p).0
        × Grows s (advance s p).0
        × Well ports (advance s p).0 (advance s p).1
  advance-Well s (Program.done response) secured w = (secured, Grows-same s s refl, w)
  advance-Well s (Program.failed code) secured w = (secured, Grows-same s s refl, tt)
  advance-Well s (Program.get_bootstrap id go) secured w =
      (secured, Grows-same s s refl, w s (Grows-same s s refl) secured)
  advance-Well s (Program.get_attempt handle go) secured w =
      (secured, Grows-same s s refl, w s (get_attempt s handle) (Grows-same s s refl))
  advance-Well s (Program.begin_bootstrap context r go) secured (e, w) =
      let grows = begin_bootstrap-Grows s context r in
      (
        SecuredStore-begin s context r e secured,
        grows,
        w (begin_bootstrap s context r).0 (begin_bootstrap s context r).1 grows,
      )
  advance-Well s (Program.consume_challenge i go) secured (e, v, w) =
      let after = SecuredStore-consume s i e v secured in
      (after, consume_challenge-Grows s i, w s after)
  advance-Well s (Program.apply_session_event i go) secured w =
      let grows = apply_session_event-Grows s i secured.0 in
      (
        SecuredStore-apply s i secured,
        grows,
        w (apply_session_event s i).0 (apply_session_event s i).1 grows,
      )
  advance-Well s (Program.finalize context request p) secured w = (secured, Grows-same s s refl, w)
  advance-Well s (Program.schedule_cleanup environment handle p) secured w =
      (secured, Grows-same s s refl, w)

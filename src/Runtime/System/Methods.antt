-- ===== src/Runtime/System/Methods.antt =====
-- What each method of apps/orchestrator/src/cloud-run-runtime-service.ts may do, from its first call.
mod Consuming
mod Opening
use mathlib.Core.Path.{subst}
use scribe_drop.Common.{
  Bool, if◌then◌else◌, ◌≡◌, refl, sym, ap, ◌∙◌, inl, inr, String, true, false, Option, none, some,
  ◌is◌, if-cases, not, ◌||◌, is_iff, Bool-cases, Option-cases, ◌&&◌, ℕ,
}
use scribe_drop.Common.Assoc.{lookup, lookup-put_same}
use scribe_drop.Common.Filed.{lookup-Filed, lookup-All}
use scribe_drop.Runtime.Record.{not_later, RuntimeAttemptContext, RuntimeBootstrapRecord, EventKind}
use scribe_drop.Runtime.Store.{
  RuntimeStore, ConsumeInput, ConsumeChallengeResult, ApplySessionEventResult, BeginBootstrapResult,
  consume_challenge, consume_found, consume_unclaimed, claimed_record, get_bootstrap,
}
use scribe_drop.Runtime.Sessions.Known.{name_of}
use scribe_drop.Runtime.Service.Base.{
  BootstrapRequest, ClaimRequest, SessionRequest, guarded, require_context, bootstrap_response,
  Program, Ports, challenge_of,
}
use scribe_drop.Runtime.Service.Claim.{
  signature_valid, claim, claim_known, claim_signed, claim_input, consumed, session_response,
  unclaimed,
}
use scribe_drop.Runtime.System.Growth.{Grows}
use scribe_drop.Runtime.System.{Method, answering, Answers}
use scribe_drop.Controller.Record.{Timestamp}
use scribe_drop.Runtime.Guards.{
  ErrorCode, VerifiedGoogleIdentity, CloudRunRuntimeConfiguration, has_passed,
  require_google_identity, require_runtime_identity, require_readback,
}
use scribe_drop.Runtime.Service.Bootstrap.{bootstrap, bootstrap_new, new_bootstrap, begun}
use scribe_drop.Runtime.Service.Report.{report, reported as reported_program, applied}
use scribe_drop.Runtime.System.Tokens.{SecuredBy, Secured, SecuredStore, Well, signature-Grown}
use scribe_drop.Runtime.System.Methods.Consuming.{Stored, answered_record, consume_challenge-Stored}
use scribe_drop.Runtime.System.Methods.Opening.{
  guarded-Well, if-Well, require_context-Well, bootstrap-Well,
}

module _ (ports : Ports) where
  own_name :
      (s : RuntimeStore) (id : String) (r : RuntimeBootstrapRecord)
      → SecuredStore ports s
      → lookup id s.bootstraps ≡ some r
      → lookup r.bootstrap_request_id s.bootstraps ≡ some r
  own_name s id r secured found =
      ap (λ k. lookup k s.bootstraps) (lookup-Filed name_of id r s.bootstraps secured.0 found)
      ∙ found

  vouched :
      (a : Answers) (s t : RuntimeStore) (id : String) (r : RuntimeBootstrapRecord)
      (signature : String)
      → lookup id s.bootstraps ≡ some r
      → Grows s t
      → signature_valid (answering ports a) r signature ≡ true
      → (x : RuntimeBootstrapRecord) × (lookup id t.bootstraps ≡ some x)
        × ((signature : String) × (signature_valid ports x signature ≡ true))
  unfolding signature_valid
  vouched a s t id r signature found g valid =
      let (x, found_x, (origin, _)) = g id r found in
      (x, found_x, (signature, signature-Grown ports r x signature origin valid))

  reported-Well :
      (k : EventKind) (request : SessionRequest) (context : RuntimeAttemptContext)
      (s : RuntimeStore)
      → Well ports s (reported_program k request context)
  unfolding reported_program
  reported-Well EventKind.ack request context s = tt
  reported-Well EventKind.heartbeat request context s = tt
  reported-Well EventKind.terminal request context s = tt

  applied-Well :
      (request : SessionRequest) (o : ApplySessionEventResult) (s : RuntimeStore)
      → Well ports s (applied request o)
  unfolding applied
  applied-Well request ApplySessionEventResult.conflict s = tt
  applied-Well request ApplySessionEventResult.expired s = tt
  applied-Well request ApplySessionEventResult.rejected s = tt
  applied-Well request ApplySessionEventResult.stale s = tt
  applied-Well request (ApplySessionEventResult.accepted context) s =
      reported-Well request.event.kind request context s
  applied-Well request (ApplySessionEventResult.duplicate context) s =
      reported-Well request.event.kind request context s

  report-Well :
      (a : Answers) (now : ℕ) (request : SessionRequest) (s : RuntimeStore)
      → Well ports s (report (answering ports a) now request)
  unfolding report
  report-Well a now request s = λ t o g. applied-Well request o t

  session_response-Well :
      (a : Answers) (now : ℕ) (context : RuntimeAttemptContext) (s : RuntimeStore)
      (r : RuntimeBootstrapRecord) (id : Option String) (expires : Option Timestamp)
      (digest : Option String)
      → lookup r.bootstrap_request_id s.bootstraps ≡ some r
      → SecuredStore ports s
      → r.session_id ≡ id
      → r.session_expires_at ≡ expires
      → r.claim_digest ≡ digest
      → Well ports s (session_response (answering ports a) now context r id expires digest)
  unfolding session_response
  session_response-Well a now context s r none expires digest found secured e f g = tt
  session_response-Well a now context s r (some id) none digest found secured e f g = tt
  session_response-Well a now context s r (some id) (some expires) none found secured e f g = tt
  session_response-Well a now context s r (some id) (some expires) (some digest) found secured e f
        g =
      let held = lookup-All (Secured ports) r.bootstrap_request_id r s.bootstraps secured.1 found in
      let (session, named, token, signed) = subst (SecuredBy ports r) g held in
      let same : session ≡ id = cc in
      elim (Bool-cases (has_passed expires now)) [
        | inl over ↦ rw (over, session_response) tt
        | inr live ↦
            rw (live, session_response) (r, found, (digest, g), e, f, rw same at token, signed)
      ]

  consumed-Well :
      (a : Answers) (now : ℕ) (context : RuntimeAttemptContext) (s : RuntimeStore) (id : String)
      (o : ConsumeChallengeResult)
      → SecuredStore ports s
      → ((r : RuntimeBootstrapRecord)
          → answered_record o ≡ some r
          → lookup id s.bootstraps ≡ some r)
      → Well ports s (consumed (answering ports a) now context o)
  unfolding consumed
  consumed-Well a now context s id ConsumeChallengeResult.expired secured stored = tt
  consumed-Well a now context s id ConsumeChallengeResult.not_found secured stored = tt
  consumed-Well a now context s id ConsumeChallengeResult.conflict secured stored = tt
  consumed-Well a now context s id (ConsumeChallengeResult.accepted r) secured stored =
      session_response-Well a now context s r r.session_id r.session_expires_at r.claim_digest
        (own_name s id r secured (stored r refl)) secured refl refl refl
  consumed-Well a now context s id (ConsumeChallengeResult.duplicate r) secured stored =
      session_response-Well a now context s r r.session_id r.session_expires_at r.claim_digest
        (own_name s id r secured (stored r refl)) secured refl refl refl

  claim_signed-Well :
      (c : CloudRunRuntimeConfiguration) (a : Answers) (now : ℕ) (session_id : String)
      (request : ClaimRequest) (s t : RuntimeStore) (r : RuntimeBootstrapRecord)
      (context : RuntimeAttemptContext)
      → lookup request.bootstrap_request_id s.bootstraps ≡ some r
      → Grows s t
      → Well ports t (claim_signed c (answering ports a) now session_id request r context)
  unfolding claim_signed claim_input
  claim_signed-Well c a now session_id request s t r context found g =
      elim (Bool-cases (ports.secrets.hash (challenge_of ports r) is r.challenge_hash)) [
        | inr e ↦ rw (e, claim_signed) tt
        | inl e ↦ elim (Bool-cases (signature_valid (answering ports a) r request.signature)) [
          | inr unsigned ↦ rw (e, unsigned, claim_signed) tt
          | inl signed ↦
              let i = claim_input c (answering ports a) now session_id request in
              rw (e, signed, claim_signed)
                (
                  refl,
                  vouched a s t request.bootstrap_request_id r request.signature found g signed,
                  (λ u secured.
                      consumed-Well a now context (consume_challenge u i).0
                        request.bootstrap_request_id (consume_challenge u i).1 secured
                        (λ x h. consume_challenge-Stored u i x h)),
                )
        ]
      ]

  claim_known-Well :
      (c : CloudRunRuntimeConfiguration) (a : Answers) (now : ℕ) (session_id : String)
      (request : ClaimRequest) (s : RuntimeStore) (r : RuntimeBootstrapRecord)
      → lookup request.bootstrap_request_id s.bootstraps ≡ some r
      → Well ports s (claim_known c (answering ports a) now session_id request r)
  unfolding claim_known
  claim_known-Well c a now session_id request s r found =
      let handle = request.runtime.execution_handle in
      let signed = claim_signed c (answering ports a) now session_id request r in
      let read = λ (context : RuntimeAttemptContext).
        guarded (require_readback c request.runtime context (a.read_execution handle))
          (signed context) in
      let go = λ (context : RuntimeAttemptContext).
        guarded (require_runtime_identity c request.runtime context) (read context) in
      let rest =
        if has_passed r.challenge_expires_at now && unclaimed r.claim_digest
        then Program.failed ErrorCode.challenge_expired
        else require_context handle go in
      if-Well ports s (not (r.execution_handle is handle))
        (Program.failed ErrorCode.execution_not_found) rest tt
        λ _.
          if-Well ports s (has_passed r.challenge_expires_at now && unclaimed r.claim_digest)
            (Program.failed ErrorCode.challenge_expired) (require_context handle go) tt
            λ _. require_context-Well ports s handle go λ t context g.
              guarded-Well ports t (require_runtime_identity c request.runtime context)
                (read context)
                (guarded-Well ports t
                  (require_readback c request.runtime context (a.read_execution handle))
                  (signed context)
                  (claim_signed-Well c a now session_id request s t r context found g))

  claim-Well :
      (c : CloudRunRuntimeConfiguration) (a : Answers) (now : ℕ) (session_id : String)
      (request : ClaimRequest) (s : RuntimeStore)
      → Well ports s (claim c (answering ports a) now session_id request)
  unfolding claim get_bootstrap
  claim-Well c a now session_id request s = λ t g secured.
      elim (Option-cases (lookup request.bootstrap_request_id t.bootstraps)) [
        | inl missing ↦ rw missing tt
        | inr (r, found) ↦ rw found (claim_known-Well c a now session_id request t r found)
      ]

  pub Method-Well :
      (c : CloudRunRuntimeConfiguration) (s : RuntimeStore) (p : Program)
      → Method c ports p
      → Well ports s p
  Method-Well c s p (Method.a_bootstrap a now id request q e) =
      subst (Well ports s) (sym e) (bootstrap-Well ports c a now id request s)
  Method-Well c s p (Method.a_claim a now id request q e) =
      subst (Well ports s) (sym e) (claim-Well c a now id request s)
  Method-Well c s p (Method.a_report a now request q e) =
      subst (Well ports s) (sym e) (report-Well a now request s)

-- ===== src/Runtime/System/Methods/Opening.antt =====
-- What the guards and `bootstrap` of apps/orchestrator/src/cloud-run-runtime-service.ts may do.
use scribe_drop.Common.{
  Bool, if◌then◌else◌, ◌≡◌, refl, inl, inr, String, false, Option, none, some, ◌is◌, if-cases, not,
  ◌||◌, Bool-cases, Option-cases, ℕ,
}
use scribe_drop.Runtime.Record.{RuntimeAttemptContext, RuntimeBootstrapRecord}
use scribe_drop.Runtime.Store.{RuntimeStore, BeginBootstrapResult, get_bootstrap}
use scribe_drop.Runtime.Service.Base.{
  BootstrapRequest, guarded, require_context, bootstrap_response, Program, Ports, challenge_of,
}
use scribe_drop.Runtime.System.Growth.{Grows}
use scribe_drop.Runtime.System.{answering, Answers}
use scribe_drop.Runtime.Guards.{
  ErrorCode, VerifiedGoogleIdentity, CloudRunRuntimeConfiguration, has_passed,
  require_google_identity, require_runtime_identity, require_readback,
}
use scribe_drop.Runtime.Service.Bootstrap.{bootstrap, bootstrap_new, new_bootstrap, begun}
use scribe_drop.Runtime.System.Tokens.{Well}

module _ (ports : Ports) where
  pub guarded-Well :
      (s : RuntimeStore) (o : Option ErrorCode) (p : Program)
      → Well ports s p
      → Well ports s (guarded o p)
  guarded-Well s none p w = w
  guarded-Well s (some code) p w = tt

  pub if-Well :
      (s : RuntimeStore) (b : Bool) (p q : Program)
      → Well ports s p
      → (b ≡ false → Well ports s q)
      → Well ports s (if b then p else q)
  if-Well s b p q w v = if-cases (Well ports s) b p q w v

  pub require_context-Well :
      (s : RuntimeStore) (handle : String) (go : RuntimeAttemptContext → Program)
      → ((t : RuntimeStore) (context : RuntimeAttemptContext)
          → Grows s t
          → Well ports t (go context))
      → Well ports s (require_context handle go)
  unfolding require_context
  require_context-Well s handle go w = λ t o g. cases t g o
    where
      cases :
          (t : RuntimeStore)
          → Grows s t
          → (o : Option RuntimeAttemptContext)
          → Well ports t (elim o [
            | none ↦ Program.failed ErrorCode.execution_not_found
            | some context ↦ go context
          ])
      cases t g none = tt
      cases t g (some context) = w t context g

  bootstrap_response-Well :
      (s : RuntimeStore) (r : RuntimeBootstrapRecord) (a : Answers)
      → Well ports s (bootstrap_response (answering ports a) r)
  unfolding bootstrap_response
  bootstrap_response-Well s r a =
      elim (Bool-cases (ports.secrets.hash (challenge_of ports r) is r.challenge_hash)) [
        | inl e ↦ rw (e, bootstrap_response) tt
        | inr e ↦ rw (e, bootstrap_response) tt
      ]

  begun-Well :
      (s : RuntimeStore) (o : BeginBootstrapResult) (a : Answers)
      → Well ports s (begun (answering ports a) o)
  unfolding begun
  begun-Well s BeginBootstrapResult.conflict a = tt
  begun-Well s BeginBootstrapResult.not_found a = tt
  begun-Well s (BeginBootstrapResult.accepted r) a = bootstrap_response-Well s r a
  begun-Well s (BeginBootstrapResult.duplicate r) a = bootstrap_response-Well s r a

  bootstrap_new-Well :
      (c : CloudRunRuntimeConfiguration) (a : Answers) (now : ℕ) (challenge_id : String)
      (request : BootstrapRequest) (o : Option VerifiedGoogleIdentity) (s : RuntimeStore)
      → Well ports s (bootstrap_new c (answering ports a) now challenge_id request o)
  unfolding bootstrap_new new_bootstrap
  bootstrap_new-Well c a now challenge_id request none s = tt
  bootstrap_new-Well c a now challenge_id request (some identity) s =
      let record_ = new_bootstrap c (answering ports a) now challenge_id request in
      let go = λ (context : RuntimeAttemptContext).
        guarded
          (require_readback c request.runtime context
            (a.read_execution request.runtime.execution_handle))
          (Program.begin_bootstrap context record_ (begun (answering ports a))) in
      guarded-Well s (require_google_identity c identity now)
        (require_context request.runtime.execution_handle
          (λ context. guarded (require_runtime_identity c request.runtime context) (go context)))
        (require_context-Well s request.runtime.execution_handle
          (λ context. guarded (require_runtime_identity c request.runtime context) (go context))
          (λ t context g.
            guarded-Well t (require_runtime_identity c request.runtime context) (go context) (
              guarded-Well t
                (require_readback c request.runtime context
                  (a.read_execution request.runtime.execution_handle))
                (Program.begin_bootstrap context record_ (begun (answering ports a)))
                (refl, (λ u o h. begun-Well u o a)))))

  pub bootstrap-Well :
      (c : CloudRunRuntimeConfiguration) (a : Answers) (now : ℕ) (challenge_id : String)
      (request : BootstrapRequest) (s : RuntimeStore)
      → Well ports s (bootstrap c (answering ports a) now challenge_id request)
  unfolding bootstrap
  bootstrap-Well c a now challenge_id request s = λ t g secured.
      elim (Option-cases (get_bootstrap t request.bootstrap_request_id)) [
        | inl missing ↦ rw missing (
            bootstrap_new-Well c a now challenge_id request
              (a.verify_identity request.identity_token c.identity_audience) t)
        | inr (x, found) ↦ rw found (
            if-Well t
              (not (x.request_digest is ports.digest_bootstrap request)
                || not (x.execution_handle is request.runtime.execution_handle))
              (Program.failed ErrorCode.bootstrap_conflict)
              (if has_passed x.challenge_expires_at now
                then Program.failed ErrorCode.challenge_expired
                else bootstrap_response (answering ports a) x)
              tt
              (λ _.
                if-Well t (has_passed x.challenge_expires_at now)
                  (Program.failed ErrorCode.challenge_expired)
                  (bootstrap_response (answering ports a) x) tt
                  (λ _. bootstrap_response-Well t x a)))
      ]

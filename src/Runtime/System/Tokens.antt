-- ===== src/Runtime/System/Tokens.antt =====
-- The tokens and the signatures behind the sessions that
-- apps/orchestrator/src/cloud-run-runtime-service.ts opens.
use scribe_drop.Common.{◌≡◌, ap, ◌∙◌, inl, inr, String, true, Option, none, some, All}
use scribe_drop.Common.Assoc.{lookup, values}
use scribe_drop.Runtime.Record.{RuntimeAttemptContext, RuntimeBootstrapRecord}
use scribe_drop.Runtime.Store.{
  RuntimeStore, ConsumeInput, ApplySessionEventResult, BeginBootstrapResult, consume_challenge,
  get_bootstrap,
}
use scribe_drop.Runtime.Service.Base.{
  ClaimResponse, Response, Program, Ports, token_of, challenge_fields,
}
use scribe_drop.Runtime.Service.Claim.{signature_valid}
use scribe_drop.Runtime.System.Growth.{SameOrigin, Grown, Grows, Grows-trans, FiledStore}

module _ (ports : Ports) where
  -- A session's token is derived from its claim, and the bootstrap's key has signed its challenge.
  abbrev pub SecuredBy : RuntimeBootstrapRecord → Option String → Type 0
  SecuredBy r none = Unit {0}
  SecuredBy r (some claim) =
      (session : String) × (r.session_id ≡ some session)
      × (r.session_token_hash
          ≡ some (ports.secrets.hash (token_of ports.secrets r.bootstrap_request_id claim session)))
      × ((signature : String) × (signature_valid ports r signature ≡ true))

  abbrev pub Secured : RuntimeBootstrapRecord → Type 0
  Secured r = SecuredBy r r.claim_digest

  abbrev pub SecuredStore : RuntimeStore → Type 0
  SecuredStore s = FiledStore s × All Secured (values s.bootstraps)

  -- The session of a response is stored, with the hash of its token, and the key of its bootstrap has
  -- signed the challenge.
  abbrev pub Held : RuntimeStore → ClaimResponse → Type 0
  Held s response =
      (r : RuntimeBootstrapRecord) × (lookup r.bootstrap_request_id s.bootstraps ≡ some r)
      × ((claim : String) × (r.claim_digest ≡ some claim))
      × (r.session_id ≡ some response.session_id)
      × (r.session_expires_at ≡ some response.expires_at)
      × (r.session_token_hash ≡ some (ports.secrets.hash response.token))
      × ((signature : String) × (signature_valid ports r signature ≡ true))

  abbrev pub Answered : RuntimeStore → Response → Type 0
  Answered s (Response.claimed response) = Held s response
  Answered s (Response.bootstrapped response) = Unit {0}
  Answered s Response.acknowledged = Unit {0}
  Answered s (Response.heartbeat cancel) = Unit {0}
  Answered s Response.accepted = Unit {0}

  -- The bootstrap that a claim names has signed its challenge.
  abbrev pub Vouched : RuntimeStore → ConsumeInput → Type 0
  Vouched s i =
      (r : RuntimeBootstrapRecord) × (lookup i.bootstrap_request_id s.bootstraps ≡ some r)
      × ((signature : String) × (signature_valid ports r signature ≡ true))

  -- What a method may still do, from the store that it last saw.
  abbrev pub Well : RuntimeStore → Program → Type 0
  Well s (Program.done response) = Answered s response
  Well s (Program.failed code) = Unit {0}
  Well s (Program.get_bootstrap id go) =
      (t : RuntimeStore) → Grows s t → SecuredStore t → Well t (go (get_bootstrap t id))
  Well s (Program.get_attempt handle go) =
      (t : RuntimeStore) (o : Option RuntimeAttemptContext) → Grows s t → Well t (go o)
  Well s (Program.begin_bootstrap context r go) =
      (r.claim_digest ≡ none)
      × ((t : RuntimeStore) (o : BeginBootstrapResult) → Grows s t → Well t (go o))
  Well s (Program.consume_challenge i go) =
      (i.session_token_hash
        ≡ ports.secrets.hash
            (token_of ports.secrets i.bootstrap_request_id i.claim_digest i.session_id))
      × Vouched s i
      × ((t : RuntimeStore)
          → SecuredStore (consume_challenge t i).0
          → Well (consume_challenge t i).0 (go (consume_challenge t i).1))
  Well s (Program.apply_session_event i go) =
      (t : RuntimeStore) (o : ApplySessionEventResult) → Grows s t → Well t (go o)
  Well s (Program.finalize context request p) = Well s p
  Well s (Program.schedule_cleanup environment handle p) = Well s p

  pub signature-Grown :
      (r x : RuntimeBootstrapRecord) (signature : String)
      → SameOrigin r x
      → signature_valid ports r signature ≡ true
      → signature_valid ports x signature ≡ true
  unfolding signature_valid challenge_fields
  signature-Grown r x signature (a, b, c, d, e, f, g, h) valid = rw (a, b, c, d, e, f, g) valid

  Vouched-Grows : (s t : RuntimeStore) (i : ConsumeInput) → Grows s t → Vouched s i → Vouched t i
  Vouched-Grows s t i g (r, found, (signature, valid)) =
      let (x, found_x, (origin, _)) = g i.bootstrap_request_id r found in
      (x, found_x, (signature, signature-Grown r x signature origin valid))

  Held-Grows :
      (s t : RuntimeStore) (response : ClaimResponse)
      → Grows s t
      → Held s response
      → Held t response
  Held-Grows s t response g (r, found, (claim, claimed), id, expires, token, (signature, valid)) =
      go (g r.bootstrap_request_id r found)
    where
      go :
          (x : RuntimeBootstrapRecord) × (lookup r.bootstrap_request_id t.bootstraps ≡ some x)
            × Grown r x
          → Held t response
      go (x, found_x, (origin, inl unclaimed)) = absurd (cc)
      go (x, found_x, (origin, inr (a, b, c, d))) = (
        x,
        ap (λ k. lookup k t.bootstraps) origin.0 ∙ found_x,
        (claim, a ∙ claimed),
        b ∙ id,
        c ∙ expires,
        d ∙ token,
        (signature, signature-Grown r x signature origin valid),
      )

  -- What a method may still do, it may do when others have gone on.
  pub Well-Grows : (s t : RuntimeStore) (p : Program) → Grows s t → Well s p → Well t p
  Well-Grows s t (Program.done (Response.claimed response)) g w = Held-Grows s t response g w
  Well-Grows s t (Program.done (Response.bootstrapped response)) g w = tt
  Well-Grows s t (Program.done Response.acknowledged) g w = tt
  Well-Grows s t (Program.done (Response.heartbeat cancel)) g w = tt
  Well-Grows s t (Program.done Response.accepted) g w = tt
  Well-Grows s t (Program.failed code) g w = tt
  Well-Grows s t (Program.get_bootstrap id go) g w = λ u h. w u (Grows-trans s t u g h)
  Well-Grows s t (Program.get_attempt handle go) g w = λ u o h. w u o (Grows-trans s t u g h)
  Well-Grows s t (Program.begin_bootstrap context r go) g (e, w) =
      (e, (λ u o h. w u o (Grows-trans s t u g h)))
  Well-Grows s t (Program.consume_challenge i go) g (e, v, w) = (e, Vouched-Grows s t i g v, w)
  Well-Grows s t (Program.apply_session_event i go) g w = λ u o h. w u o (Grows-trans s t u g h)
  Well-Grows s t (Program.finalize context request p) g w = Well-Grows s t p g w
  Well-Grows s t (Program.schedule_cleanup environment handle p) g w = Well-Grows s t p g w

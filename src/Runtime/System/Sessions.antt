-- ===== src/Runtime/System/Sessions.antt =====
-- The sessions that the methods of apps/orchestrator/src/cloud-run-runtime-service.ts have answered.
use mathlib.Core.Path.{subst}
use scribe_drop.Common.{
  ◌≡◌, sym, List, [], ◌∷◌, ◌++◌, All, All-append, All-append_left, All-append_right,
}
use scribe_drop.Common.Assoc.{values}
use scribe_drop.Common.Filed.{Filed}
use scribe_drop.Runtime.Store.{RuntimeStore}
use scribe_drop.Runtime.Guards.{CloudRunRuntimeConfiguration}
use scribe_drop.Runtime.Sessions.Known.{name_of}
use scribe_drop.Runtime.Service.Base.{ClaimResponse, Response, Program, Ports}
use scribe_drop.Runtime.System.Growth.{Grows}
use scribe_drop.Runtime.System.Tokens.{Secured, SecuredStore, Held, Well, Well-Grows}
use scribe_drop.Runtime.System.Turns.{advance-Well}
use scribe_drop.Runtime.System.Methods.{Method-Well}
use scribe_drop.Runtime.System.{RuntimeSystem, Reach, advance}

module _ (c : CloudRunRuntimeConfiguration) (ports : Ports) where
  abbrev Invariant : RuntimeSystem → Type 0
  Invariant u = SecuredStore ports u.store × All (Well ports u.store) u.threads

  All-grow :
      (s t : RuntimeStore) (ps : List Program)
      → Grows s t
      → All (Well ports s) ps
      → All (Well ports t) ps
  All-grow s t [] g w = tt
  All-grow s t (p ∷ ps) g (w, ws) = (Well-Grows ports s t p g w, All-grow s t ps g ws)

  turn_keeps :
      (u : RuntimeSystem) (before : List Program) (p : Program) (after : List Program)
      → u.threads ≡ before ++ (p ∷ after)
      → Invariant u
      → Invariant record {
        store = (advance u.store p).0;
        threads = before ++ ((advance u.store p).1 ∷ after);
      }
  turn_keeps u before p after e (secured, all) =
      let s = u.store in
      let split = subst (All (Well ports s)) e all in
      let left = All-append_left (Well ports s) before (p ∷ after) split in
      let (here, right) = All-append_right (Well ports s) before (p ∷ after) split in
      let (secured', g, w) = advance-Well ports s p secured here in
      let t = (advance s p).0 in
      (
        secured',
        All-append (Well ports t) before ((advance s p).1 ∷ after) (All-grow s t before g left)
            (w, All-grow s t after g right),
      )

  Reach-Invariant : (u : RuntimeSystem) → Reach c ports u → Invariant u
  Reach-Invariant u (Reach.start v empty idle) = (
    (
      subst (Filed name_of) (sym empty) tt,
      subst (λ m. All (Secured ports) (values m)) (sym empty) tt,
    ),
    subst (All (Well ports u.store)) (sym idle) tt,
  )
  Reach-Invariant u (Reach.call {u = v} p r m) =
      let (secured, all) = Reach-Invariant v r in (secured, (Method-Well ports c v.store p m, all))
  Reach-Invariant u (Reach.turn {u = v} before p after r e) =
      turn_keeps v before p after e (Reach-Invariant v r)

-- However the methods of the service interleave over one store that began without bootstraps, and
-- whatever Google, the controller and the signer of capabilities answer: a session that a claim has
-- answered is the stored one of a bootstrap, with its end, the store keeps the hash of the very token
-- that was answered, and the key that the bootstrap brought has signed its challenge.
pub answered-Held :
    (c : CloudRunRuntimeConfiguration) (ports : Ports) (u : RuntimeSystem) (before : List Program)
    (response : ClaimResponse) (after : List Program)
    → Reach c ports u
    → u.threads ≡ before ++ (Program.done (Response.claimed response) ∷ after)
    → Held ports u.store response
answered-Held c ports u before response after reach e =
    let (_, all) = Reach-Invariant c ports u reach in
    let split = subst (All (Well ports u.store)) e all in
    (All-append_right (Well ports u.store) before (Program.done (Response.claimed response) ∷ after)
      split).0

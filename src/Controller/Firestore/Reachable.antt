-- ===== src/Controller/Firestore/Reachable.antt =====
-- What the calls of `FirestoreControlStore`, apps/gpu-controller/src/firestore-control-store.ts, lead to.
use mathlib.Core.Path.{subst}
use scribe_drop.Common.{
  ℕ, ◌≤◌, ◌≡◌, refl, sym, ap, ◌∙◌, String, Bool, true, [], Option, none, some, arith, keep,
  Bool-cases, inl, inr,
}
use scribe_drop.Controller.Contracts.{Environment, same_environment, same_environment_sound}
use scribe_drop.Controller.Record.{at, ControlRecord}
use scribe_drop.Controller.Store.{
  ControlStore, SyntheticAuthorization, AdmitCreateInput, ClaimRequestInput, ClaimRequestResult,
  ClaimRequestResult, AdmitCreateInput, within_window,
}
use scribe_drop.Controller.Firestore.Documents.{
  EnvironmentDocument, valid_environment, valid_authorization, valid_record, valid_admission,
  valid_claim,
}
use scribe_drop.Controller.Firestore.Database.{
  Database, Answer, create_firestore_environment_document, fresh_document,
}
use scribe_drop.Controller.Firestore.Admit.{admit_create}
use scribe_drop.Controller.Firestore.Claim.{claim_request}
use scribe_drop.Controller.Firestore.Replace.{compare_and_set}
use scribe_drop.Controller.Firestore.Admission.{admit_create-Refines}
use scribe_drop.Controller.Firestore.Claiming.{claim_request-Claimed}
use scribe_drop.Controller.Firestore.Claiming.Written.{Claimed}
use scribe_drop.Controller.Firestore.Replacing.{compare_and_set-ReplacedAlike, ReplacedAlike}
use scribe_drop.Controller.Firestore.Consistent.{Consistent, active_list}
use scribe_drop.Controller.Firestore.Agreement.{Consistent-later, Consistent-later}

-- No records and no requests.
abbrev pub empty_but : (Environment → Option EnvironmentDocument) → Database
empty_but environments = record { environments = environments; executions = []; requests = [] }

-- The database of one environment as calls at times that never go back have made it, from a document
-- that `createFirestoreEnvironmentDocument` has made and nothing else. The time of a request, and the
-- expiry of a create request, are written as `toISOString` writes them; else a call may be any.
pub data Reachable (u : String → Bool) (a : Environment → SyntheticAuthorization) (e : Environment)
    : ℕ → Database → Type 0 where
  fresh :
      (now : ℕ) (environments : Environment → Option EnvironmentDocument) (d : EnvironmentDocument)
      → (a e).environment ≡ e
      → create_firestore_environment_document (a e) (at now) ≡ some d
      → environments e ≡ some d
      → Reachable u a e now (empty_but environments)
  admitted :
      {last : ℕ} {db : Database} (i : AdmitCreateInput) (now expires : ℕ)
      → Reachable u a e last db
      → i.now ≡ at now
      → last ≤ now
      → i.record_expires_at ≡ at expires
      → Reachable u a e now (admit_create u (a e) db i).0
  claimed :
      {last : ℕ} {db : Database} (i : ClaimRequestInput) (now : ℕ)
      → Reachable u a e last db
      → i.now ≡ at now
      → last ≤ now
      → Reachable u a e now (claim_request u (a e) db i).0
  replaced :
      {last : ℕ} {db : Database} (v : ℕ) (n : ControlRecord)
      → Reachable u a e last db
      → Reachable u a e last (compare_and_set u (a e) db v n).0

module _ (u : String → Bool) (a : Environment → SyntheticAuthorization) (e : Environment) where
  made_document :
      (now : ℕ) (d : EnvironmentDocument)
      → create_firestore_environment_document (a e) (at now) ≡ some d
      → (d.authorization ≡ a e)
        × (valid_environment d ≡ true)
        × (d.active_execution_handle ≡ none)
        × (d.recent_accepted_at ≡ [])
        × (d.reserved_executions ≡ 0)
        × (d.reserved_worst_case_jpy ≡ 0)
  unfolding create_firestore_environment_document
  made_document now d made = elim (Bool-cases (valid_authorization (a e))) [
    | inr unfit ↦ absurd (ground (arith, made))
    | inl ok ↦ elim (Bool-cases (valid_environment (fresh_document (a e) (at now)))) [
      | inr unfit ↦ absurd (ground (arith, made))
      | inl fits ↦
          let same : fresh_document (a e) (at now) ≡ d = ground (arith, made) in
          subst
            (λ d.
              (d.authorization ≡ a e)
              × (valid_environment d ≡ true)
              × (d.active_execution_handle ≡ none)
              × (d.recent_accepted_at ≡ [])
              × (d.reserved_executions ≡ 0)
              × (d.reserved_worst_case_jpy ≡ 0))
            same (refl, fits, refl, refl, refl, refl)
    ]
  ]

  fresh-Consistent :
      (now : ℕ) (environments : Environment → Option EnvironmentDocument) (d : EnvironmentDocument)
      → (a e).environment ≡ e
      → create_firestore_environment_document (a e) (at now) ≡ some d
      → environments e ≡ some d
      → Consistent u a e now (empty_but environments)
  fresh-Consistent now environments d own made found =
      let (authorized, fits, closed, recent, count, cost) = made_document now d made in
      record {
        document = d;
        own = own;
        found = found;
        authorized = authorized;
        fits = fits;
        executions_fit = tt;
        requests_fit = tt;
        executions_filed = tt;
        requests_filed = tt;
        count = sym count;
        cost = sym cost;
        active = sym (ap active_list closed);
        recent = ap (keep (within_window now)) recent;
      }

  -- An admission that is not this environment's, or does not fit its schema, changes nothing.
  admitted-Consistent :
      (last now expires : ℕ) (db : Database) (i : AdmitCreateInput)
      → Consistent u a e last db
      → i.now ≡ at now
      → last ≤ now
      → i.record_expires_at ≡ at expires
      → Consistent u a e now (admit_create u (a e) db i).0
  unfolding admit_create
  admitted-Consistent last now expires db i c time later iso =
      let same = Consistent-later u a e last db c now later in
      elim (Bool-cases (valid_admission i)) [
        | inr unfit ↦ rw (unfit, admit_create) same
        | inl ok ↦ elim (Bool-cases (same_environment i.identity.environment (a e).environment)) [
          | inr foreign ↦ rw (ok, foreign, admit_create) same
          | inl ours ↦
              let here =
                same_environment_sound i.identity.environment (a e).environment ours ∙ c.own in
              subst (λ f. Consistent u a f now (admit_create u (a f) db i).0) here
                (admit_create-Refines u a i last now expires db
                  (subst (λ f. Consistent u a f last db) (sym here) c) ok time later iso).2
        ]
      ]

  claimed-Consistent :
      (last now : ℕ) (db : Database) (i : ClaimRequestInput)
      → Consistent u a e last db
      → i.now ≡ at now
      → last ≤ now
      → Consistent u a e now (claim_request u (a e) db i).0
  unfolding claim_request
  claimed-Consistent last now db i c time later =
      let same = Consistent-later u a e last db c now later in
      elim (Bool-cases (valid_claim i)) [
        | inr unfit ↦ rw (unfit, claim_request) same
        | inl ok ↦ elim (Bool-cases (same_environment i.identity.environment (a e).environment)) [
          | inr foreign ↦ rw (ok, foreign, claim_request) same
          | inl ours ↦
              let here =
                same_environment_sound i.identity.environment (a e).environment ours ∙ c.own in
              subst (λ f. Consistent u a f now (claim_request u (a f) db i).0) here
                (outcome i (subst (λ f. Consistent u a f now db) (sym here) same)
                  (claim_request u (a i.identity.environment) db i)
                  (claim_request-Claimed u a i last now db
                    (subst (λ f. Consistent u a f last db) (sym here) c) ok time later))
        ]
      ]
    where
      outcome :
          (i : ClaimRequestInput)
          → Consistent u a i.identity.environment now db
          → (r : Database × Answer ClaimRequestResult) {m : ControlStore × ClaimRequestResult}
          → Claimed u a i now db r m
          → Consistent u a i.identity.environment now r.0
      outcome i same r (inl (_, _, c)) = c
      outcome i same r (inr (unchanged, _)) =
          subst (λ r. Consistent u a i.identity.environment now r.0) (sym unchanged) same

  replaced-Consistent :
      (last : ℕ) (db : Database) (v : ℕ) (n : ControlRecord)
      → Consistent u a e last db
      → Consistent u a e last (compare_and_set u (a e) db v n).0
  unfolding compare_and_set
  replaced-Consistent last db v n c = elim (Bool-cases (valid_record u n)) [
    | inr unfit ↦ rw (unfit, compare_and_set) c
    | inl ok ↦ elim (Bool-cases (same_environment n.environment (a e).environment)) [
      | inr foreign ↦ rw (ok, foreign, compare_and_set) c
      | inl ours ↦
          let here = same_environment_sound n.environment (a e).environment ours ∙ c.own in
          let there = subst (λ f. Consistent u a f last db) (sym here) c in
          subst (λ f. Consistent u a f last (compare_and_set u (a f) db v n).0) here
            (outcome there (compare_and_set u (a n.environment) db v n)
              (compare_and_set-ReplacedAlike u a v n last db there ok))
    ]
  ]
    where
      outcome :
          Consistent u a n.environment last db
          → (r : Database × Answer Bool) {m : ControlStore × Bool} → ReplacedAlike u a n last db r m
          → Consistent u a n.environment last r.0
      outcome same r (inl ((_, _, c), _)) = c
      outcome same r (inr (unchanged, _)) =
          subst (λ r. Consistent u a n.environment last r.0) (sym unchanged) same

  -- The documents that calls have made, whatever the calls, as long as the times of requests never go
  -- back, and these times and the expiries of create requests are written as `toISOString` writes them,
  -- are consistent:
  -- each fits its schema and its path, the environment's document counts the records, their
  -- reservations and the recent requests, and names the one record, if any, that is not cleaned.
  pub Reachable-Consistent :
      (last : ℕ) (db : Database) → Reachable u a e last db → Consistent u a e last db
  Reachable-Consistent last db (Reachable.fresh now environments d own made found) =
      fresh-Consistent now environments d own made found
  Reachable-Consistent last db
        (Reachable.admitted {last = before} {db = old} i now expires r time later iso) =
      admitted-Consistent before now expires old i (Reachable-Consistent before old r) time later
        iso
  Reachable-Consistent last db (Reachable.claimed {last = before} {db = old} i now r time later) =
      claimed-Consistent before now old i (Reachable-Consistent before old r) time later
  Reachable-Consistent last db (Reachable.replaced {last = before} {db = old} v n r) =
      replaced-Consistent before old v n (Reachable-Consistent before old r)

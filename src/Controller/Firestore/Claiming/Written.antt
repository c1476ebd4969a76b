-- ===== src/Controller/Firestore/Claiming/Written.antt =====
-- The documents that a claim leaves, in
-- apps/gpu-controller/src/firestore-control-store.ts.
use text.Mathlib.TextEquality.{eq_iff}
use scribe_drop.Common.{
  ℕ, ◌⊎◌, ◌≤◌, ◌≡◌, refl, sym, String, Bool, true, false, Option, none, some, arith, Bool-cases,
  Option-cases, inl, inr,
}
use scribe_drop.Common.Assoc.{lookup, put, put-on_values}
use scribe_drop.Common.Filed.{put-Filed, put-All}
use scribe_drop.Controller.Contracts.{Environment}
use scribe_drop.Controller.Record.{Timestamp, at, ControlRecord}
use scribe_drop.Controller.Store.{
  ControlStore, SyntheticAuthorization, ClaimRequestInput, ClaimRequestResult, same_request,
  remember,
}
use scribe_drop.Controller.Firestore.Documents.{
  RequestDocument, ExecutionDocument, valid_request, valid_claim, earlier, is_utc,
  same_request_document,
}
use scribe_drop.Controller.Firestore.Database.{
  Database, Answer, is_limited, request_document, claimed_environment, set_environment,
}
use scribe_drop.Controller.Firestore.Claim.{claim_remembered, write_claim}
use scribe_drop.Controller.Firestore.Consistent.{
  Consistent, in_memory, request_id_of, remembered_of, request_fits, Refines,
}
use scribe_drop.Controller.Firestore.Agreement.{
  known_record, found_execution, found_request, same_environment_refl, names_environment,
  recent_grows,
}
use scribe_drop.Controller.Firestore.Fitting.{claimed_environment-fits, earlier-date_of}

-- A claim is answered as in memory, or the record that it would be accepted on has expired.
abbrev pub Claimed :
    (String → Bool)
    → (Environment → SyntheticAuthorization)
    → ClaimRequestInput
    → ℕ
    → Database
    → Database × Answer ClaimRequestResult
    → ControlStore × ClaimRequestResult
    → Type 0
Claimed u a i now db r m =
    Refines u a i.identity.environment now r m
    ⊎ ((r ≡ (db, Answer.thrown))
        × ((x : ControlRecord) × (m.1 ≡ ClaimRequestResult.accepted x)
            × (earlier i.now x.expires_at ≡ false)))

module _ (u : String → Bool) (a : Environment → SyntheticAuthorization) (i : ClaimRequestInput)
    (last now : ℕ) (db : Database) (c : Consistent u a i.identity.environment last db)
    (ok : valid_claim i ≡ true) (time : i.now ≡ at now) (later : last ≤ now) where
  -- The documents behind a claim of a record that expires at `t`.
  abbrev accepted : Timestamp → RequestDocument
  accepted t = request_document i.identity i.now t

  abbrev written : Timestamp → Database
  written t = record db {
    environments = set_environment (claimed_environment c.document i.now now) db;
    requests = put i.identity.request_id (accepted t) db.requests;
  }

  claimed_time : is_utc i.now ≡ true
  unfolding valid_claim
  claimed_time = ground arith

  accepted_fits :
      (t : Timestamp)
      → valid_request (accepted t) ≡ true
      → request_fits i.identity.environment db.executions (accepted t) ≡ true
  unfolding request_document valid_claim
  accepted_fits t fit = ground (arith, same_environment_refl i.identity.environment)

  written-Consistent :
      (t : Timestamp)
      → valid_request (accepted t) ≡ true
      → is_limited c.document now ≡ false
      → lookup i.identity.request_id db.requests ≡ none
      → Consistent u a i.identity.environment now (written t)
  unfolding claimed_environment request_document
  written-Consistent t fit slow new_request =
      let e = i.identity.environment in
      record {
        document = claimed_environment c.document i.now now;
        own = c.own;
        found = rw (names_environment u a e last db c) refl;
        authorized = c.authorized;
        fits = claimed_environment-fits c.document i.now now claimed_time c.fits slow;
        executions_fit = c.executions_fit;
        requests_fit =
            put-All (λ q. request_fits i.identity.environment db.executions q ≡ true)
              i.identity.request_id (accepted t) db.requests (accepted_fits t fit) c.requests_fit;
        executions_filed = c.executions_filed;
        requests_filed =
            put-Filed request_id_of i.identity.request_id (accepted t) db.requests refl
              c.requests_filed;
        count = c.count;
        cost = c.cost;
        active = c.active;
        recent =
            recent_grows u a i.identity.environment last db c now i.identity.request_id (accepted t)
              later new_request;
      }

  abbrev pub answer_known : Option ControlRecord → ClaimRequestResult
  answer_known none = ClaimRequestResult.conflict
  answer_known (some r) = ClaimRequestResult.duplicate r

  pub claim_remembered_lem :
      (q : RequestDocument)
      → lookup i.identity.request_id db.requests ≡ some q
      → claim_remembered u db i q
        ≡ Answer.answered
            (answer_known (known_record u a i.identity.environment last db c q i.identity))
  unfolding claim_remembered same_request_document
  claim_remembered_lem q h =
      let (fit, own) =
        found_request u a i.identity.environment last db c i.identity.request_id q h in
      elim (Option-cases (lookup i.identity.execution_handle db.executions)) [
        | inl missing ↦ ground (arith, missing)
        | inr (x, found) ↦
            let (parsed, _, _, _) =
              found_execution u a i.identity.environment last db c i.identity.execution_handle x
                found in
            elim (Bool-cases (same_request q.identity i.identity)) [
              | inr other ↦ ground (arith, found, other)
              | inl same ↦
                  ground (arith, found, parsed, eq_iff q.identity.request_id i.identity.request_id)
            ]
      ]

  in_memory-written :
      (t : Timestamp)
      → in_memory a (written t) ≡ record (in_memory a db) {
        requests = put i.identity.request_id (remember i.identity i.now) (in_memory a db).requests;
      }
  unfolding request_document
  in_memory-written t =
      rw (sym (put-on_values remembered_of i.identity.request_id (accepted t) db.requests)) refl

  unexpired_fits : (t : Timestamp) → earlier i.now t ≡ true → valid_request (accepted t) ≡ true
  unfolding valid_request valid_claim request_document
  unexpired_fits t h = ground (arith, earlier-date_of i.now t)

  unfit_late : (t : Timestamp) → earlier i.now t ≡ false → valid_request (accepted t) ≡ false
  unfolding valid_request request_document
  unfit_late t h = ground (arith, earlier-date_of i.now t)

  pub claim_written :
      (x : ExecutionDocument)
      → lookup i.identity.request_id db.requests ≡ none
      → is_limited c.document now ≡ false
      → Claimed u a i now db (write_claim db c.document i x.control_record now) (
        record (in_memory a db) {
          requests =
              put i.identity.request_id (remember i.identity i.now) (in_memory a db).requests;
        },
        ClaimRequestResult.accepted x.control_record,
      )
  unfolding write_claim
  claim_written x new_request slow =
      let t = x.control_record.expires_at in
      let fits = claimed_environment-fits c.document i.now now claimed_time c.fits slow in
      elim (Bool-cases (earlier i.now t)) [
        | inl young ↦
            let fit = unexpired_fits t young in
            rw (fit, fits)
              (inl (refl, in_memory-written t, written-Consistent t fit slow new_request))
        | inr old ↦ rw (unfit_late t old) (inr (refl, (x.control_record, refl, old)))
      ]

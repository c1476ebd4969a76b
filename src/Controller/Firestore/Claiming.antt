-- ===== src/Controller/Firestore/Claiming.antt =====
-- `claimRequest` of apps/gpu-controller/src/firestore-control-store.ts against that of
-- apps/gpu-controller/src/control-store.ts.
pub mod Written
use mathlib.Core.Path.{subst}
use text.Mathlib.TextEquality.{eq_iff}
use scribe_drop.Common.{
  ℕ, ◌⊎◌, ◌≤◌, ◌≡◌, refl, sym, ◌∙◌, String, Bool, true, false, Option, none, some, arith, ◌==◌,
  Bool-cases, Option-cases, inl, inr,
}
use scribe_drop.Common.Assoc.{lookup, put, lookup-on_values, put-on_values}
use scribe_drop.Common.Filed.{put-Filed, put-All}
use scribe_drop.Controller.Contracts.{Environment, same_environment}
use scribe_drop.Controller.Record.{Timestamp, at, ControlRecord}
use scribe_drop.Controller.Store.{
  ControlStore, SyntheticAuthorization, ClaimRequestInput, ClaimRequestResult, claim_record,
  same_request, remember,
}
use scribe_drop.Controller.Store.{claim_request as memory_claim_request}
use scribe_drop.Controller.Firestore.Documents.{
  RequestDocument, ExecutionDocument, valid_request, valid_claim, earlier, same_request_document,
}
use scribe_drop.Controller.Firestore.Database.{
  Database, Answer, is_limited, request_document, claimed_environment, set_environment,
}
use scribe_drop.Controller.Firestore.Claim.{
  claim_remembered, write_claim, claim_parsed, claim_new, claim_transaction, claim_request,
}
use scribe_drop.Controller.Firestore.Consistent.{
  Consistent, in_memory, record_of, request_id_of, remembered_of, request_fits, Refines,
}
use scribe_drop.Controller.Firestore.Agreement.{
  reads_environment, reads_authorized, known_record, remembered_alike, unremembered,
  found_execution, found_request, limited_alike, same_environment_refl, names_environment,
  Consistent-later, recent_grows,
}
use scribe_drop.Controller.Firestore.Fitting.{claimed_environment-fits}
use scribe_drop.Controller.Firestore.Claiming.Written.{
  answer_known, claim_remembered_lem, claim_written, Claimed,
}

module _ (u : String → Bool) (a : Environment → SyntheticAuthorization) (i : ClaimRequestInput)
    (last now : ℕ) (db : Database) (c : Consistent u a i.identity.environment last db)
    (ok : valid_claim i ≡ true) (time : i.now ≡ at now) (later : last ≤ now) where
  claim_parsed_lem :
      (x : ExecutionDocument)
      → lookup i.identity.request_id db.requests ≡ none
      → lookup i.identity.execution_handle db.executions ≡ some x
      → Claimed u a i now db
          (claim_parsed db c.document i x.control_record (at now))
          (claim_record (in_memory a db) i x.control_record (at now))
  unfolding claim_parsed claim_record
  claim_parsed_lem x new_request found =
      let e = i.identity.environment in
      let (_, _, here, _) = found_execution u a e last db c i.identity.execution_handle x found in
      let ours : same_environment x.control_record.environment e ≡ true =
        subst (λ f. same_environment f e ≡ true) (sym here) (same_environment_refl e) in
      let slow_alike = limited_alike u a e last db c now later in
      let same = Consistent-later u a e last db c now later in
      rw ours (elim (Bool-cases (x.control_record.version == i.expected_version)) [
        | inr stale ↦ rw stale (inl (refl, refl, same))
        | inl current ↦ rw current (elim (Bool-cases (is_limited c.document now)) [
          | inl fast ↦ rw (fast, sym slow_alike ∙ fast) (inl (refl, refl, same))
          | inr slow ↦
              rw (slow, sym slow_alike ∙ slow)
                (claim_written u a i last now db c ok time later x new_request slow)
        ])
      ])

  claim_transaction_lem :
      Claimed u a i now db
        (claim_transaction u (a i.identity.environment) db i)
        (memory_claim_request (in_memory a db) i)
  unfolding claim_transaction memory_claim_request claim_new
  claim_transaction_lem =
      let e = i.identity.environment in
      let same = Consistent-later u a e last db c now later in
      let stored = lookup-on_values record_of i.identity.execution_handle db.executions in
      let reads = reads_environment u a e last db c in
      let ours = reads_authorized u a e last db c in
      elim (Option-cases (lookup i.identity.request_id db.requests)) [
        | inr (q, h) ↦
            rw
              (
                reads,
                ours,
                h,
                remembered_alike u a e last db c i.identity q h,
                claim_transaction,
                memory_claim_request,
                claim_remembered_lem u a i last now db c ok time later q h,
              )
              (answers (known_record u a e last db c q i.identity))
        | inl new_request ↦
            let unknown = unremembered u a e last db c i.identity new_request in
            elim (Option-cases (lookup i.identity.execution_handle db.executions)) [
              | inl missing ↦
                  rw
                    (
                      reads, ours, new_request, missing, unknown, stored, missing,
                      claim_transaction, claim_new, memory_claim_request,
                    )
                    (inl (refl, refl, same))
              | inr (x, found) ↦
                  let (parsed, _, _, _) =
                    found_execution u a e last db c i.identity.execution_handle x found in
                  rw
                    (
                      reads, ours, new_request, found, unknown, stored, found, claim_transaction,
                      claim_new, memory_claim_request, parsed,
                    )
                    (subst
                      (λ t.
                        Claimed u a i now db (claim_parsed db c.document i x.control_record t)
                          (claim_record (in_memory a db) i x.control_record t))
                      (sym time) (claim_parsed_lem x new_request found))
            ]
      ]
    where
      answers :
          (o : Option ControlRecord)
          → Claimed u a i now db
              (db, Answer.answered (answer_known u a i last now db c ok time later o))
              (elim o [
                | none ↦ (in_memory a db, ClaimRequestResult.conflict)
                | some r ↦ (in_memory a db, ClaimRequestResult.duplicate r)
              ])
      answers none =
          inl (refl, refl, Consistent-later u a i.identity.environment last db c now later)
      answers (some r) =
          inl (refl, refl, Consistent-later u a i.identity.environment last db c now later)

-- A claim in the store's environment that fits its schema, at a time that is written as `toISOString`
-- writes it and is not before that of the last request, is answered over consistent documents as the
-- store in memory answers it, the documents then stand for what the store in memory has become and are
-- consistent; or it throws and changes nothing, where the store in memory accepts it on a record that
-- has expired by then.
pub claim_request-Claimed :
    (u : String → Bool) (a : Environment → SyntheticAuthorization) (i : ClaimRequestInput)
    (last now : ℕ) (db : Database)
    → Consistent u a i.identity.environment last db
    → valid_claim i ≡ true
    → i.now ≡ at now
    → last ≤ now
    → Claimed u a i now db
        (claim_request u (a i.identity.environment) db i)
        (memory_claim_request (in_memory a db) i)
unfolding claim_request
claim_request-Claimed u a i last now db c ok time later =
    let e = i.identity.environment in
    let ours : same_environment e (a e).environment ≡ true =
      subst (λ f. same_environment e f ≡ true) (sym c.own) (same_environment_refl e) in
    rw (ok, ours, claim_request) (claim_transaction_lem u a i last now db c ok time later)

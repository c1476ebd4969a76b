-- ===== src/Controller/Firestore/Claim.antt =====
-- `claimRequest` of `FirestoreControlStore`, apps/gpu-controller/src/firestore-control-store.ts.
use scribe_drop.Common.{ℕ, String, Bool, not, ◌&&◌, none, some, ◌==◌, if◌then◌else◌}
use scribe_drop.Common.Assoc.{lookup, put}
use scribe_drop.Controller.Contracts.{same_environment}
use scribe_drop.Controller.Record.{Timestamp, at, written_at, unparsable, ControlRecord}
use scribe_drop.Controller.Store.{SyntheticAuthorization, ClaimRequestInput, ClaimRequestResult}
use scribe_drop.Controller.Firestore.Documents.{
  EnvironmentDocument, RequestDocument, valid_environment, valid_request, valid_claim,
  parse_record_document, same_authorization, same_request_document,
}
use scribe_drop.Controller.Firestore.Database.{
  Database, Answer, read_environment, set_environment, is_limited, request_document,
  claimed_environment,
}

module _ (is_uuid : String → Bool) where
  unfoldable pub claim_remembered :
      Database → ClaimRequestInput → RequestDocument → Answer ClaimRequestResult
  unfolding valid_request same_request_document parse_record_document
  claim_remembered db input remembered =
      if not (valid_request remembered)
      then Answer.thrown
      else elim (lookup input.execution_handle db.executions) [
        | none ↦ Answer.answered ClaimRequestResult.conflict
        | some x ↦
            if not (same_request_document remembered.identity input.identity)
            then Answer.answered ClaimRequestResult.conflict
            else elim (parse_record_document is_uuid x input.execution_handle) [
              | none ↦ Answer.thrown
              | some r ↦ Answer.answered (ClaimRequestResult.duplicate r)
            ]
      ]

unfoldable pub write_claim :
    Database
    → EnvironmentDocument
    → ClaimRequestInput
    → ControlRecord
    → ℕ
    → Database × Answer ClaimRequestResult
unfolding request_document valid_request claimed_environment valid_environment
write_claim db d input r now =
    let q = request_document input.identity input.now r.expires_at in
    let next = claimed_environment d input.now now in
    if valid_request q && valid_environment next
    then (
      record db {
        environments = set_environment next db;
        requests = put input.request_id q db.requests;
      },
      Answer.answered (ClaimRequestResult.accepted r),
    )
    else (db, Answer.thrown)

-- The end of the tests, at a time that can be read.
unfoldable pub claim_at :
    Database
    → EnvironmentDocument
    → ClaimRequestInput
    → ControlRecord
    → ℕ
    → Database × Answer ClaimRequestResult
unfolding is_limited write_claim
claim_at db d input r now =
    if is_limited d now
    then (db, Answer.answered ClaimRequestResult.rate_limited)
    else write_claim db d input r now

unfoldable pub claim_parsed :
    Database
    → EnvironmentDocument
    → ClaimRequestInput
    → ControlRecord
    → Timestamp
    → Database × Answer ClaimRequestResult
unfolding claim_at
claim_parsed db d input r now =
    if not (same_environment r.environment input.environment)
    then (db, Answer.answered ClaimRequestResult.environment_mismatch)
    else if not (r.version == input.expected_version)
    then (db, Answer.answered (ClaimRequestResult.stale r))
    else elim now [
      | unparsable _ ↦ (db, Answer.answered ClaimRequestResult.rate_limited)
      | at t ↦ claim_at db d input r t
      | written_at t _ _ ↦ claim_at db d input r t
    ]

module _ (is_uuid : String → Bool) where
  unfoldable pub claim_new :
      Database → EnvironmentDocument → ClaimRequestInput → Database × Answer ClaimRequestResult
  unfolding parse_record_document claim_parsed
  claim_new db d input = elim (lookup input.execution_handle db.executions) [
    | none ↦ (db, Answer.answered ClaimRequestResult.not_found)
    | some x ↦ elim (parse_record_document is_uuid x input.execution_handle) [
      | none ↦ (db, Answer.thrown)
      | some r ↦ claim_parsed db d input r input.now
    ]
  ]

  -- The transaction of `claimRequest`.
  unfoldable pub claim_transaction :
      SyntheticAuthorization → Database → ClaimRequestInput → Database × Answer ClaimRequestResult
  unfolding read_environment same_authorization claim_remembered claim_new
  claim_transaction authorization db input = elim (read_environment db input.environment) [
    | none ↦ (db, Answer.thrown)
    | some d ↦
        if not (same_authorization d.authorization authorization)
        then (db, Answer.answered ClaimRequestResult.environment_mismatch)
        else elim (lookup input.request_id db.requests) [
          | some remembered ↦ (db, claim_remembered is_uuid db input remembered)
          | none ↦ claim_new db d input
        ]
  ]

  unfoldable pub claim_request :
      SyntheticAuthorization → Database → ClaimRequestInput → Database × Answer ClaimRequestResult
  unfolding valid_claim claim_transaction
  claim_request authorization db input =
      if not (valid_claim input)
      then (db, Answer.thrown)
      else if not (same_environment input.environment authorization.environment)
      then (db, Answer.answered ClaimRequestResult.environment_mismatch)
      else claim_transaction authorization db input

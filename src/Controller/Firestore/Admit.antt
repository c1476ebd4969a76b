-- ===== src/Controller/Firestore/Admit.antt =====
-- `admitCreate` of `FirestoreControlStore`, apps/gpu-controller/src/firestore-control-store.ts.
use scribe_drop.Common.{ℕ, String, Bool, not, ◌&&◌, none, some, ◌is◌, if◌then◌else◌}
use scribe_drop.Common.Assoc.{lookup, put}
use scribe_drop.Controller.Contracts.{same_environment}
use scribe_drop.Controller.Record.{Timestamp, at, written_at, unparsable}
use scribe_drop.Controller.Store.{
  SyntheticAuthorization, AdmitCreateInput, AdmitCreateResult, new_record,
}
use scribe_drop.Controller.Firestore.Documents.{
  EnvironmentDocument, RequestDocument, valid_environment, valid_request, valid_admission,
  valid_record, parse_record_document, record_document, same_authorization, same_request_document,
}
use scribe_drop.Controller.Firestore.Database.{
  Database, Answer, read_environment, set_environment, is_exhausted, is_limited, request_document,
  admitted_environment,
}

module _ (is_uuid : String → Bool) where
  -- The answer to a create request that is remembered.
  unfoldable pub admit_remembered :
      Database → AdmitCreateInput → RequestDocument → Answer AdmitCreateResult
  unfolding valid_request same_request_document parse_record_document
  admit_remembered db input remembered =
      if not (valid_request remembered)
      then Answer.thrown
      else elim (lookup input.execution_handle db.executions) [
        | none ↦ Answer.answered AdmitCreateResult.conflict
        | some x ↦
            if not (same_request_document remembered.identity input.identity)
            then Answer.answered AdmitCreateResult.conflict
            else elim (parse_record_document is_uuid x input.execution_handle) [
              | none ↦ Answer.thrown
              | some r ↦
                  if r.bootstrap_request_id is input.request_id
                  then Answer.answered (AdmitCreateResult.duplicate r)
                  else Answer.thrown
            ]
      ]

  -- The writes of an admission, none where a document does not fit its schema.
  unfoldable pub write_admission :
      Database → EnvironmentDocument → AdmitCreateInput → ℕ → Database × Answer AdmitCreateResult
  unfolding new_record valid_record request_document valid_request admitted_environment
      valid_environment
  write_admission db d input now =
      let r = new_record input d.authorization.worst_case_jpy_per_execution in
      let q = request_document input.identity input.now input.record_expires_at in
      let next = admitted_environment d input now in
      if valid_record is_uuid r && (valid_request q && valid_environment next)
      then (
        record {
          environments = set_environment next db;
          executions = put input.execution_handle (record_document r) db.executions;
          requests = put input.request_id q db.requests;
        },
        Answer.answered (AdmitCreateResult.accepted r),
      )
      else (db, Answer.thrown)

  unfoldable pub admit_at :
      Database → EnvironmentDocument → AdmitCreateInput → ℕ → Database × Answer AdmitCreateResult
  unfolding is_exhausted is_limited write_admission
  admit_at db d input now =
      if is_exhausted d now
      then (db, Answer.answered AdmitCreateResult.budget_exhausted)
      else if is_limited d now
      then (db, Answer.answered AdmitCreateResult.rate_limited)
      else write_admission db d input now

  -- The same, where `Date.parse` may not read the time.
  unfoldable pub admit_new :
      Database
      → EnvironmentDocument
      → AdmitCreateInput
      → Timestamp
      → Database × Answer AdmitCreateResult
  unfolding admit_at
  admit_new db d input (unparsable text) = (db, Answer.answered AdmitCreateResult.budget_exhausted)
  admit_new db d input (written_at now utc text) = admit_at db d input now
  admit_new db d input (at now) = admit_at db d input now

  -- The transaction of `admitCreate`.
  unfoldable pub admit_transaction :
      SyntheticAuthorization → Database → AdmitCreateInput → Database × Answer AdmitCreateResult
  unfolding read_environment same_authorization admit_remembered admit_new
  admit_transaction authorization db input = elim (read_environment db input.environment) [
    | none ↦ (db, Answer.thrown)
    | some d ↦
        if not (same_authorization d.authorization authorization)
        then (db, Answer.answered AdmitCreateResult.environment_mismatch)
        else elim (lookup input.request_id db.requests) [
          | some remembered ↦ (db, admit_remembered db input remembered)
          | none ↦ elim (lookup input.execution_handle db.executions) [
            | some _ ↦ (db, Answer.answered AdmitCreateResult.conflict)
            | none ↦ admit_new db d input input.now
          ]
        ]
  ]

  unfoldable pub admit_create :
      SyntheticAuthorization → Database → AdmitCreateInput → Database × Answer AdmitCreateResult
  unfolding valid_admission admit_transaction
  admit_create authorization db input =
      if not (valid_admission input)
      then (db, Answer.thrown)
      else if not (same_environment input.environment authorization.environment)
      then (db, Answer.answered AdmitCreateResult.environment_mismatch)
      else admit_transaction authorization db input

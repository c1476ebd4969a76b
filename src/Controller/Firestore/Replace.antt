-- ===== src/Controller/Firestore/Replace.antt =====
-- `compareAndSet` of `FirestoreControlStore`, apps/gpu-controller/src/firestore-control-store.ts.
use scribe_drop.Common.{
  ℕ, ◌+◌, String, Bool, true, false, not, ◌&&◌, none, some, ◌==◌, ◌is◌, if◌then◌else◌,
}
use scribe_drop.Common.Assoc.{lookup, put}
use scribe_drop.Controller.Contracts.{same_environment}
use scribe_drop.Controller.Record.{ControlRecord, is_cleaned, same_time}
use scribe_drop.Controller.Store.{SyntheticAuthorization, same_origin}
use scribe_drop.Controller.Firestore.Documents.{
  EnvironmentDocument, valid_environment, valid_record, parse_record_document, record_document,
  same_authorization, earlier,
}
use scribe_drop.Controller.Firestore.Database.{
  Database, Answer, read_environment, set_environment, released_environment,
}

-- The tests on the record that a replacement finds.
unfoldable pub allows : ControlRecord → ℕ → ControlRecord → Bool
unfolding same_origin
allows current expected next =
    current.version == expected
    && (next.version == expected + 1
        && (same_origin next current
            && (same_time next.expires_at current.expires_at
                && (not (earlier next.updated_at current.updated_at)
                    && not (is_cleaned current.state)))))

abbrev pub holds_active : EnvironmentDocument → String → Bool
holds_active d handle = elim d.active_execution_handle [
  | none ↦ false
  | some active ↦ d.active_executions == 1 && active is handle
]

-- The writes of a replacement.
unfoldable pub write_replacement :
    Database → EnvironmentDocument → ControlRecord → Database × Answer Bool
unfolding released_environment valid_environment
write_replacement db d next =
    let executions = put next.execution_handle (record_document next) db.executions in
    let released = released_environment d next in
    if not (is_cleaned next.state)
    then (record db { executions = executions }, Answer.answered true)
    else if valid_environment released
    then (
      record db { environments = set_environment released db; executions = executions },
      Answer.answered true,
    )
    else (db, Answer.thrown)

unfoldable pub replace_parsed :
    Database → EnvironmentDocument → ControlRecord → ℕ → ControlRecord → Database × Answer Bool
unfolding allows write_replacement
replace_parsed db d current expected next =
    if not (allows current expected next)
    then (db, Answer.answered false)
    else if not (holds_active d current.execution_handle)
    then (db, Answer.answered false)
    else write_replacement db d next

module _ (is_uuid : String → Bool) where
  -- The transaction of `compareAndSet`.
  unfoldable pub replace_transaction :
      SyntheticAuthorization → Database → ℕ → ControlRecord → Database × Answer Bool
  unfolding read_environment same_authorization parse_record_document replace_parsed
  replace_transaction authorization db expected next = elim (read_environment db next.environment) [
    | none ↦ (db, Answer.thrown)
    | some d ↦
        if not (same_authorization d.authorization authorization)
        then (db, Answer.answered false)
        else elim (lookup next.execution_handle db.executions) [
          | none ↦ (db, Answer.answered false)
          | some x ↦ elim (parse_record_document is_uuid x next.execution_handle) [
            | none ↦ (db, Answer.thrown)
            | some current ↦ replace_parsed db d current expected next
          ]
        ]
  ]

  unfoldable pub compare_and_set :
      SyntheticAuthorization → Database → ℕ → ControlRecord → Database × Answer Bool
  unfolding valid_record replace_transaction
  compare_and_set authorization db expected next =
      if not (valid_record is_uuid next)
      then (db, Answer.thrown)
      else if not (same_environment next.environment authorization.environment)
      then (db, Answer.answered false)
      else replace_transaction authorization db expected next

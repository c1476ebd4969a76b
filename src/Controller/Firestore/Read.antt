-- ===== src/Controller/Firestore/Read.antt =====
-- `get` and `listUnclean` of `FirestoreControlStore`, apps/gpu-controller/src/firestore-control-store.ts.
use scribe_drop.Common.{
  String, Bool, not, ◌||◌, List, [], ◌∷◌, Option, none, some, ◌==◌, if◌then◌else◌,
}
use scribe_drop.Common.Assoc.{lookup}
use scribe_drop.Controller.Contracts.{Environment, same_environment}
use scribe_drop.Controller.Record.{ControlRecord, is_cleaned}
use scribe_drop.Controller.Store.{SyntheticAuthorization}
use scribe_drop.Controller.Firestore.Documents.{
  EnvironmentDocument, parse_record_document, same_authorization, is_opaque_handle,
}
use scribe_drop.Controller.Firestore.Database.{Database, Answer, read_environment}

module _ (is_uuid : String → Bool) where
  unfoldable pub get : SyntheticAuthorization → Database → String → Answer (Option ControlRecord)
  unfolding is_opaque_handle parse_record_document
  get authorization db handle =
      if not (is_opaque_handle handle) then Answer.thrown else elim (lookup handle db.executions) [
        | none ↦ Answer.answered none
        | some x ↦ elim (parse_record_document is_uuid x handle) [
          | none ↦ Answer.thrown
          | some r ↦
              if same_environment r.environment authorization.environment
              then Answer.answered (some r)
              else Answer.thrown
        ]
      ]

  -- What `listUnclean` reads of the record that the environment's document names.
  unfoldable pub list_active : Database → Environment → String → Answer (List ControlRecord)
  unfolding parse_record_document
  list_active db environment handle = elim (lookup handle db.executions) [
    | none ↦ Answer.thrown
    | some x ↦ elim (parse_record_document is_uuid x handle) [
      | none ↦ Answer.thrown
      | some r ↦
          if not (same_environment r.environment environment) || is_cleaned r.state
          then Answer.thrown
          else Answer.answered (r ∷ [])
    ]
  ]

  unfoldable pub list_bound :
      Database → EnvironmentDocument → Environment → Answer (List ControlRecord)
  unfolding list_active
  list_bound db d environment = elim d.active_execution_handle [
    | none ↦ if d.active_executions == 0 then Answer.answered [] else Answer.thrown
    | some handle ↦
        if d.active_executions == 1 then list_active db environment handle else Answer.thrown
  ]

  unfoldable pub list_unclean :
      SyntheticAuthorization → Database → Environment → Answer (List ControlRecord)
  unfolding read_environment same_authorization list_bound
  list_unclean authorization db environment =
      if not (same_environment environment authorization.environment)
      then Answer.answered []
      else elim (read_environment db environment) [
        | none ↦ Answer.thrown
        | some d ↦
            if same_authorization d.authorization authorization
            then list_bound db d environment
            else Answer.thrown
      ]

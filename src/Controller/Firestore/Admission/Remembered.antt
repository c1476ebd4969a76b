-- ===== src/Controller/Firestore/Admission/Remembered.antt =====
-- A create request that is remembered, in
-- apps/gpu-controller/src/firestore-control-store.ts.
use mathlib.Core.Path.{subst}
use text.Mathlib.TextEquality.{eq_iff}
use scribe_drop.Common.{
  ℕ, ◌≤◌, ◌≡◌, ap, ◌∙◌, String, Bool, true, Option, none, some, arith, ◌is◌, Bool-cases,
  Option-cases, inl, inr,
}
use scribe_drop.Common.Assoc.{lookup}
use scribe_drop.Controller.Contracts.{Environment, Action, same_action, same_action_sound}
use scribe_drop.Controller.Record.{at, ControlRecord}
use scribe_drop.Controller.Store.{
  SyntheticAuthorization, AdmitCreateInput, AdmitCreateResult, same_request, RequestIdentity,
}
use scribe_drop.Controller.Firestore.Documents.{
  RequestDocument, ExecutionDocument, valid_admission, same_request_document,
}
use scribe_drop.Controller.Firestore.Database.{Database, Answer}
use scribe_drop.Controller.Firestore.Admit.{admit_remembered}
use scribe_drop.Controller.Firestore.Consistent.{Consistent, made_by}
use scribe_drop.Controller.Firestore.Agreement.{
  known_record, same_request_handle, found_execution, found_request,
}

module _ (u : String → Bool) (a : Environment → SyntheticAuthorization) (i : AdmitCreateInput)
    (last now : ℕ) (db : Database) (c : Consistent u a i.identity.environment last db)
    (ok : valid_admission i ≡ true) (time : i.now ≡ at now) (later : last ≤ now) where
  abbrev pub answer_known : Option ControlRecord → AdmitCreateResult
  answer_known none = AdmitCreateResult.conflict
  answer_known (some r) = AdmitCreateResult.duplicate r

  is_create : same_action i.identity.action Action.create ≡ true
  unfolding valid_admission
  is_create = ground arith

  same_create :
      (q : RequestIdentity)
      → same_request q i.identity ≡ true
      → same_action q.action Action.create ≡ true
  unfolding same_request
  same_create q same = rw (same_action_sound q.action i.identity.action (ground arith)) is_create

  -- The record of a create request that is remembered.
  remembered_made_it :
      (q : RequestDocument) (x : ExecutionDocument)
      → lookup i.identity.request_id db.requests ≡ some q
      → lookup i.identity.execution_handle db.executions ≡ some x
      → same_request q.identity i.identity ≡ true
      → (x.control_record.bootstrap_request_id is i.identity.request_id) ≡ true
  remembered_made_it q x h k same =
      let (fit, own) =
        found_request u a i.identity.environment last db c i.identity.request_id q h in
      let handles =
        same_request_handle u a i.identity.environment last db c q.identity i.identity same in
      let created = same_create q.identity same in
      let made : made_by q.identity.request_id (lookup q.identity.execution_handle db.executions)
          ≡ true =
        ground arith in
      subst (λ id. (x.control_record.bootstrap_request_id is id) ≡ true) own
        (subst (λ o. made_by q.identity.request_id o ≡ true)
          (ap (λ j. lookup j db.executions) handles ∙ k) made)

  pub admit_remembered_lem :
      (q : RequestDocument)
      → lookup i.identity.request_id db.requests ≡ some q
      → admit_remembered u db i q
        ≡ Answer.answered
            (answer_known (known_record u a i.identity.environment last db c q i.identity))
  unfolding admit_remembered same_request_document
  admit_remembered_lem q h =
      let (fit, own) =
        found_request u a i.identity.environment last db c i.identity.request_id q h in
      elim (Option-cases (lookup i.identity.execution_handle db.executions)) [
        | inl missing ↦ ground (arith, missing)
        | inr (x, found) ↦
            let (parsed, _, _, _) =
              found_execution u a i.identity.environment last db c i.identity.execution_handle x
                found in
            elim (Bool-cases (same_request q.identity i.identity)) [
              | inr other ↦ ground (arith, found, other)
              | inl same ↦ ground (
                arith,
                found,
                parsed,
                remembered_made_it q x h found same,
                eq_iff q.identity.request_id i.identity.request_id,
              )
            ]
      ]

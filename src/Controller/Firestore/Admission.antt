-- ===== src/Controller/Firestore/Admission.antt =====
-- `admitCreate` of apps/gpu-controller/src/firestore-control-store.ts against that of
-- apps/gpu-controller/src/control-store.ts.
mod Written
mod Remembered
use mathlib.Core.Path.{subst}
use text.Mathlib.TextEquality.{eq_iff}
use scribe_drop.Common.{
  ℕ, ◌+◌, ◌≤◌, ◌≡◌, refl, sym, ap, ◌∙◌, String, Bool, true, false, [], ◌∷◌, Option, none, some,
  arith, ◌is◌, length, length-append, Bool-cases, Option-cases, is_iff, inl, inr,
}
use scribe_drop.Common.Assoc.{
  lookup, put, values, lookup-on_values, put-on_values, values-put_new, lookup-put_same,
}
use scribe_drop.Common.Filed.{put-Filed, put-All}
use scribe_drop.Controller.Contracts.{
  Environment, same_environment, Action, same_action, same_action_sound,
}
use scribe_drop.Controller.Record.{at, ControlRecord}
use scribe_drop.Controller.Store.{
  SyntheticAuthorization, AdmitCreateInput, AdmitCreateResult, new_record, admit_within,
  same_request, sum_reserved, RequestIdentity, remember,
}
use scribe_drop.Controller.Store.{admit_create as memory_admit_create}
use scribe_drop.Controller.Firestore.Documents.{
  RequestDocument, ExecutionDocument, valid_admission, record_document, same_request_document,
  valid_execution_document,
}
use scribe_drop.Controller.Firestore.Database.{
  Database, Answer, is_exhausted, is_limited, request_document, admitted_environment,
  set_environment,
}
use scribe_drop.Controller.Firestore.Admit.{
  admit_remembered, write_admission, admit_new, admit_transaction, admit_create,
}
use scribe_drop.Controller.Firestore.Consistent.{
  Consistent, in_memory, record_of, handle_of, request_id_of, remembered_of, records_of,
  unclean_handles, active_list, execution_fits, request_fits, made_by, Refines,
}
use scribe_drop.Controller.Firestore.Agreement.{
  reads_environment, reads_authorized, known_record, same_request_handle, remembered_alike,
  unremembered, found_execution, found_request, exhausted_alike, limited_alike,
  same_environment_refl, same_time_refl, names_environment, Consistent-later, recent_grows,
}
use scribe_drop.Controller.Firestore.Growth.{
  sum_reserved-append, unclean_handles-append, fits_after_put,
}
use scribe_drop.Controller.Firestore.Fitting.{
  new_record-fits, admitted_request-fits, admitted_environment-fits,
}
use scribe_drop.Controller.Firestore.Admission.Written.{
  fresh, accepted, written, written-Consistent,
}
use scribe_drop.Controller.Firestore.Admission.Remembered.{answer_known, admit_remembered_lem}

module _ (u : String → Bool) (a : Environment → SyntheticAuthorization) (i : AdmitCreateInput)
    (last now : ℕ) (db : Database) (c : Consistent u a i.identity.environment last db)
    (ok : valid_admission i ≡ true) (time : i.now ≡ at now) (later : last ≤ now) (expires : ℕ)
    (iso : i.record_expires_at ≡ at expires) where
  -- The admitted record and the documents behind its admission.
  abbrev admitted_document : ExecutionDocument
  admitted_document = fresh u a i last now db c ok time later expires iso

  abbrev admitted_database : Database
  admitted_database = written u a i last now db c ok time later expires iso

  write_admission_lem :
      is_exhausted c.document now ≡ false
      → is_limited c.document now ≡ false
      → write_admission u db c.document i now ≡ (
        admitted_database,
        Answer.answered (AdmitCreateResult.accepted admitted_document.control_record),
      )
  unfolding write_admission
  write_admission_lem free slow =
      rw
        (
          new_record-fits u i c.document now ok c.fits free,
          admitted_request-fits i ok,
          admitted_environment-fits i c.document now ok c.fits free slow,
        )
        refl

  in_memory-written : in_memory a admitted_database ≡ record (in_memory a db) {
    records =
        put i.identity.execution_handle
          (new_record i (a i.identity.environment).worst_case_jpy_per_execution)
          (in_memory a db).records;
    requests = put i.identity.request_id (remember i.identity i.now) (in_memory a db).requests;
  }
  unfolding request_document
  in_memory-written =
      rw
        (
          sym (put-on_values record_of i.identity.execution_handle admitted_document db.executions),
          sym (
              put-on_values remembered_of i.identity.request_id
                (accepted u a i last now db c ok time later expires iso) db.requests),
          c.authorized,
        )
        refl

  -- Where neither the request nor the handle is known.
  admit_new_lem :
      lookup i.identity.request_id db.requests ≡ none
      → lookup i.identity.execution_handle db.executions ≡ none
      → Refines u a i.identity.environment now
          (admit_new u db c.document i (at now))
          (admit_within (in_memory a db) i (at now))
  unfolding admit_new admit_within
  admit_new_lem new_request new_handle =
      let e = i.identity.environment in
      let alike = exhausted_alike u a e last db c now in
      let slow_alike = limited_alike u a e last db c now later in
      let same = Consistent-later u a e last db c now later in
      elim (Bool-cases (is_exhausted c.document now)) [
        | inl full ↦ rw (full, sym alike ∙ full) (refl, refl, same)
        | inr free ↦ elim (Bool-cases (is_limited c.document now)) [
          | inl fast ↦ rw (free, fast, sym alike ∙ free, sym slow_alike ∙ fast) (refl, refl, same)
          | inr slow ↦
              rw
                (free, slow, sym alike ∙ free, sym slow_alike ∙ slow, write_admission_lem free slow)
                (
                  ap
                      (λ s.
                        Answer.answered (
                          AdmitCreateResult.accepted (new_record i s.worst_case_jpy_per_execution)))
                      c.authorized,
                  in_memory-written,
                  written-Consistent u a i last now db c ok time later expires iso free slow
                      new_handle new_request,
                )
        ]
      ]

  admit_transaction_lem :
      Refines u a i.identity.environment now
        (admit_transaction u (a i.identity.environment) db i)
        (memory_admit_create (in_memory a db) i)
  unfolding admit_transaction memory_admit_create
  admit_transaction_lem =
      let e = i.identity.environment in
      let same = Consistent-later u a e last db c now later in
      let stored = lookup-on_values record_of i.identity.execution_handle db.executions in
      let reads = reads_environment u a e last db c in
      let ours = reads_authorized u a e last db c in
      elim (Option-cases (lookup i.identity.request_id db.requests)) [
        | inr (q, h) ↦
            rw
              (
                reads,
                ours,
                h,
                remembered_alike u a e last db c i.identity q h,
                admit_transaction,
                memory_admit_create,
                admit_remembered_lem u a i last now db c ok time later q h,
              )
              (answers (known_record u a e last db c q i.identity))
        | inl new_request ↦ elim (Option-cases (lookup i.identity.execution_handle db.executions)) [
          | inr (x, found) ↦
              rw
                (
                  reads,
                  ours,
                  new_request,
                  found,
                  unremembered u a e last db c i.identity new_request,
                  stored,
                  found,
                  admit_transaction,
                  memory_admit_create,
                )
                (refl, refl, same)
          | inl new_handle ↦
              rw
                (
                  reads,
                  ours,
                  new_request,
                  new_handle,
                  unremembered u a e last db c i.identity new_request,
                  stored,
                  new_handle,
                  admit_transaction,
                  memory_admit_create,
                )
                (rw (c.own, same_environment_refl e)
                  (subst
                    (λ t.
                      Refines u a e now (admit_new u db c.document i t)
                        (admit_within (in_memory a db) i t))
                    (sym time) (admit_new_lem new_request new_handle)))
        ]
      ]
    where
      answers :
          (o : Option ControlRecord)
          → Refines u a i.identity.environment now
              (db, Answer.answered (answer_known u a i last now db c ok time later o))
              (elim o [
                | none ↦ (in_memory a db, AdmitCreateResult.conflict)
                | some r ↦ (in_memory a db, AdmitCreateResult.duplicate r)
              ])
      answers none = (refl, refl, Consistent-later u a i.identity.environment last db c now later)
      answers (some r) =
          (refl, refl, Consistent-later u a i.identity.environment last db c now later)

-- A create request of the store's environment that fits its schema, whose time and expiry are written
-- as `toISOString` writes them, at a time that is not before that of the last request, is answered over consistent documents as the store in memory answers it, with the
-- same record; the documents then stand for what the store in memory has become, and are consistent.
pub admit_create-Refines :
    (u : String → Bool) (a : Environment → SyntheticAuthorization) (i : AdmitCreateInput)
    (last now expires : ℕ) (db : Database)
    → Consistent u a i.identity.environment last db
    → valid_admission i ≡ true
    → i.now ≡ at now
    → last ≤ now
    → i.record_expires_at ≡ at expires
    → Refines u a i.identity.environment now
        (admit_create u (a i.identity.environment) db i)
        (memory_admit_create (in_memory a db) i)
unfolding admit_create
admit_create-Refines u a i last now expires db c ok time later iso =
    let e = i.identity.environment in
    let ours : same_environment e (a e).environment ≡ true =
      subst (λ f. same_environment e f ≡ true) (sym c.own) (same_environment_refl e) in
    rw (ok, ours, admit_create)
      (admit_transaction_lem u a i last now db c ok time later expires iso)

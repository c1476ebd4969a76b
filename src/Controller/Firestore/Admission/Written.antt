-- ===== src/Controller/Firestore/Admission/Written.antt =====
-- The documents that an admission leaves, in
-- apps/gpu-controller/src/firestore-control-store.ts.
use text.Mathlib.TextEquality.{eq_iff}
use scribe_drop.Common.{
  ℕ, ◌+◌, ◌≤◌, ◌≡◌, refl, ap, ◌∙◌, String, Bool, true, false, [], ◌∷◌, none, arith, length,
  length-append, is_iff,
}
use scribe_drop.Common.Assoc.{lookup, put, values, values-put_new, lookup-put_same}
use scribe_drop.Common.Filed.{put-Filed, put-All}
use scribe_drop.Controller.Contracts.{Environment}
use scribe_drop.Controller.Record.{at}
use scribe_drop.Controller.Store.{
  SyntheticAuthorization, AdmitCreateInput, new_record, sum_reserved,
}
use scribe_drop.Controller.Firestore.Documents.{
  RequestDocument, ExecutionDocument, valid_admission, record_document, valid_execution_document,
}
use scribe_drop.Controller.Firestore.Database.{
  Database, is_exhausted, is_limited, request_document, admitted_environment, set_environment,
}
use scribe_drop.Controller.Firestore.Consistent.{
  Consistent, handle_of, request_id_of, records_of, unclean_handles, active_list, execution_fits,
  request_fits,
}
use scribe_drop.Controller.Firestore.Agreement.{
  same_environment_refl, same_time-date_of, names_environment, recent_grows,
}
use scribe_drop.Controller.Firestore.Growth.{
  sum_reserved-append, unclean_handles-append, fits_after_put,
}
use scribe_drop.Controller.Firestore.Fitting.{
  new_record-fits, admitted_request-fits, admitted_environment-fits,
}

module _ (u : String → Bool) (a : Environment → SyntheticAuthorization) (i : AdmitCreateInput)
    (last now : ℕ) (db : Database) (c : Consistent u a i.identity.environment last db)
    (ok : valid_admission i ≡ true) (time : i.now ≡ at now) (later : last ≤ now) (expires : ℕ)
    (iso : i.record_expires_at ≡ at expires) where
  abbrev pub fresh : ExecutionDocument
  fresh = record_document (new_record i c.document.authorization.worst_case_jpy_per_execution)

  abbrev pub accepted : RequestDocument
  accepted = request_document i.identity i.now i.record_expires_at

  -- The documents behind an admission.
  abbrev pub written : Database
  written = record {
    environments = set_environment (admitted_environment c.document i now) db;
    executions = put i.identity.execution_handle fresh db.executions;
    requests = put i.identity.request_id accepted db.requests;
  }

  pub fresh_fits :
      is_exhausted c.document now ≡ false → execution_fits u i.identity.environment fresh ≡ true
  unfolding valid_execution_document new_record
  fresh_fits free = ground (
    arith,
    new_record-fits u i c.document now ok c.fits free,
    same_time-date_of i.record_expires_at expires iso,
    same_environment_refl i.identity.environment,
  )

  accepted_fits : request_fits i.identity.environment written.executions accepted ≡ true
  unfolding request_document new_record
  accepted_fits =
      rw
        (lookup-put_same i.identity.execution_handle i.identity.execution_handle fresh db.executions
          ((is_iff i.identity.execution_handle i.identity.execution_handle).1 refl))
        (ground (
          arith,
          admitted_request-fits i ok,
          same_environment_refl i.identity.environment,
          eq_iff i.identity.request_id i.identity.request_id,
        ))

  written_counts :
      lookup i.identity.execution_handle db.executions ≡ none
      → (length (values written.executions) ≡ c.document.reserved_executions + 1)
        × (sum_reserved (records_of (values written.executions))
            ≡ c.document.reserved_worst_case_jpy
              + c.document.authorization.worst_case_jpy_per_execution)
  unfolding new_record
  written_counts missing =
      rw (values-put_new i.identity.execution_handle fresh db.executions missing) (
        omega (
          arith,
          length-append {0} (values db.executions) (fresh ∷ []),
          sum_reserved-append (values db.executions) fresh,
          c.count,
          c.cost,
        ),
        omega (arith, sum_reserved-append (values db.executions) fresh, c.cost),
      )

  none_active : is_exhausted c.document now ≡ false → unclean_handles (values db.executions) ≡ []
  unfolding is_exhausted
  none_active free =
      let closed : c.document.active_execution_handle ≡ none = ground arith in
      c.active ∙ ap active_list closed

  written_active :
      is_exhausted c.document now ≡ false
      → lookup i.identity.execution_handle db.executions ≡ none
      → unclean_handles (values written.executions) ≡ i.identity.execution_handle ∷ []
  unfolding new_record
  written_active free missing =
      rw
        (
          values-put_new i.identity.execution_handle fresh db.executions missing,
          unclean_handles-append (values db.executions) (fresh ∷ []),
          none_active free,
        )
        refl

  pub written-Consistent :
      is_exhausted c.document now ≡ false
      → is_limited c.document now ≡ false
      → lookup i.identity.execution_handle db.executions ≡ none
      → lookup i.identity.request_id db.requests ≡ none
      → Consistent u a i.identity.environment now written
  unfolding admitted_environment request_document new_record
  written-Consistent free slow new_handle new_request =
      let e = i.identity.environment in
      let (count, cost) = written_counts new_handle in
      record {
        document = admitted_environment c.document i now;
        own = c.own;
        found = rw (names_environment u a e last db c) refl;
        authorized = c.authorized;
        fits = admitted_environment-fits i c.document now ok c.fits free slow;
        executions_fit =
            put-All (λ x. execution_fits u i.identity.environment x ≡ true)
              i.identity.execution_handle fresh db.executions (fresh_fits free) c.executions_fit;
        requests_fit =
            put-All (λ q. request_fits i.identity.environment written.executions q ≡ true)
              i.identity.request_id accepted db.requests accepted_fits
              (fits_after_put i.identity.environment i.identity.execution_handle fresh db.executions
                (values db.requests) (λ x h. absurd (cc)) c.requests_fit);
        executions_filed =
            put-Filed handle_of i.identity.execution_handle fresh db.executions refl
              c.executions_filed;
        requests_filed =
            put-Filed request_id_of i.identity.request_id accepted db.requests refl
              c.requests_filed;
        count = count;
        cost = cost;
        active = written_active free new_handle;
        recent =
            recent_grows u a i.identity.environment last db c now i.identity.request_id accepted
              later new_request;
      }

-- ===== src/Controller/Firestore/Replacing/Written.antt =====
-- The documents that a replacement leaves, in
-- apps/gpu-controller/src/firestore-control-store.ts.
use scribe_drop.Common.{
  ℕ, ◌≡◌, refl, sym, ap, ◌∙◌, String, Bool, true, false, [], ◌∷◌, some, arith, length, Bool-cases,
  Option-cases, is_iff, inl, inr, ◌&&◌,
}
use scribe_drop.Common.Assoc.{lookup, put, values, put-on_values}
use scribe_drop.Common.Filed.{put-Filed, put-All}
use scribe_drop.Controller.Contracts.{Environment}
use scribe_drop.Controller.Record.{ControlRecord, is_cleaned, same_time}
use scribe_drop.Controller.Store.{SyntheticAuthorization, same_origin, sum_reserved}
use scribe_drop.Controller.Firestore.Documents.{
  ExecutionDocument, valid_record, record_document, date_of, valid_execution_document,
}
use scribe_drop.Controller.Firestore.Database.{Database, released_environment, set_environment}
use scribe_drop.Controller.Firestore.Replace.{allows, holds_active, write_replacement}
use scribe_drop.Controller.Persistence.{same_origin_fields}
use scribe_drop.Controller.Firestore.Consistent.{
  Consistent, in_memory, record_of, handle_of, records_of, unclean_handles, active_list,
  execution_fits, Refines,
}
use scribe_drop.Controller.Firestore.Agreement.{
  found_execution, same_environment_refl, same_time-kept, names_environment, active_bound,
  active_bound,
}
use scribe_drop.Controller.Firestore.Growth.{
  fits_after_put, put_counts, put_unclean, put_last_cleaned, found_unclean, unclean_nonempty,
}
use scribe_drop.Controller.Firestore.Fitting.{released_environment-fits}

and_right : (a b : Bool) → (a && b) ≡ true → b ≡ true
and_right true b h = h
and_right false b h = absurd (cc)

module _ (u : String → Bool) (a : Environment → SyntheticAuthorization) (v : ℕ) (n : ControlRecord)
    (last : ℕ) (db : Database) (c : Consistent u a n.environment last db)
    (ok : valid_record u n ≡ true) where
  abbrev next : Database
  next = record db { executions = put n.execution_handle (record_document n) db.executions }

  pub active_is :
      (x : ExecutionDocument)
      → lookup n.execution_handle db.executions ≡ some x
      → is_cleaned x.control_record.state ≡ false
      → (holds_active c.document x.control_record.execution_handle ≡ true)
        × ((j : String) × (unclean_handles (values db.executions) ≡ j ∷ []))
  active_is x found unclean = elim (Option-cases c.document.active_execution_handle) [
    | inl closed ↦
        let count = ap length (c.active ∙ ap active_list closed) in
        absurd (omega (arith, unclean_nonempty n.execution_handle x db.executions found unclean))
    | inr (j, bound) ↦
        let only = c.active ∙ ap active_list bound in
        let here = found_unclean n.execution_handle j x db.executions found unclean only in
        let (count, _) = active_bound c.document c.fits in
        let one : c.document.active_executions ≡ 1 =
          sym count ∙ ap (λ h. length (active_list h)) bound in
        (rw (bound, one) ((is_iff j x.control_record.execution_handle).1 (sym here)), (j, only))
  ]

  module _ (x : ExecutionDocument) (found : lookup n.execution_handle db.executions ≡ some x)
      (allowed : allows x.control_record v n ≡ true) where
    origin : same_origin n x.control_record ≡ true
    unfolding allows
    origin = ground arith

    pub unclean : is_cleaned x.control_record.state ≡ false
    unfolding allows
    unclean = ground arith

    counts :
        (length (values next.executions) ≡ c.document.reserved_executions)
        × (sum_reserved (records_of (values next.executions)) ≡ c.document.reserved_worst_case_jpy)
    counts =
        let (_, _, _, cost) = same_origin_fields n x.control_record origin in
        let (same, same_cost) =
          put_counts n.execution_handle (record_document n) x db.executions found cost in
        (same ∙ c.count, same_cost ∙ c.cost)

    same_bootstrap :
        (y : ExecutionDocument)
        → lookup n.execution_handle db.executions ≡ some y
        → n.bootstrap_request_id ≡ y.control_record.bootstrap_request_id
    same_bootstrap y h = let (_, request, _, _) = same_origin_fields n x.control_record origin in cc

    same_expiry : same_time n.expires_at x.control_record.expires_at ≡ true
    unfolding allows
    same_expiry = ground arith

    found_expires : same_time (date_of x.ttl_expires_at) x.control_record.expires_at ≡ true
    unfolding valid_execution_document
    found_expires =
        let (_, fit, _, _) =
          found_execution u a n.environment last db c n.execution_handle x found in
        and_right (valid_record u x.control_record) _ fit

    next_expires : same_time (date_of (date_of n.expires_at)) n.expires_at ≡ true
    next_expires =
        same_time-kept x.ttl_expires_at n.expires_at x.control_record.expires_at same_expiry
          found_expires

    next_fits : execution_fits u n.environment (record_document n) ≡ true
    unfolding valid_execution_document
    next_fits = ground (arith, ok, next_expires, same_environment_refl n.environment)

    kept-Consistent : is_cleaned n.state ≡ false → Consistent u a n.environment last next
    kept-Consistent open_ =
        let (count, cost) = counts in
        let (_, _, _, handle) =
          found_execution u a n.environment last db c n.execution_handle x found in
        record {
          document = c.document;
          own = c.own;
          found = c.found;
          authorized = c.authorized;
          fits = c.fits;
          executions_fit =
              put-All (λ x. execution_fits u n.environment x ≡ true) n.execution_handle
                (record_document n) db.executions next_fits c.executions_fit;
          requests_fit =
              fits_after_put n.environment n.execution_handle (record_document n) db.executions
                (values db.requests) same_bootstrap c.requests_fit;
          executions_filed =
              put-Filed handle_of n.execution_handle (record_document n) db.executions refl
                c.executions_filed;
          requests_filed = c.requests_filed;
          count = count;
          cost = cost;
          active =
              put_unclean n.execution_handle (record_document n) x db.executions found unclean open_
                (sym handle)
              ∙ c.active;
          recent = c.recent;
        }

    abbrev released : Database
    released = record next { environments = set_environment (released_environment c.document n) db }

    released-Consistent : is_cleaned n.state ≡ true → Consistent u a n.environment last released
    unfolding released_environment
    released-Consistent closed =
        let (count, cost) = counts in
        let (_, (j, only)) = active_is x found unclean in
        record {
          document = released_environment c.document n;
          own = c.own;
          found = rw (names_environment u a n.environment last db c) refl;
          authorized = c.authorized;
          fits = released_environment-fits u c.document n ok c.fits;
          executions_fit =
              put-All (λ x. execution_fits u n.environment x ≡ true) n.execution_handle
                (record_document n) db.executions next_fits c.executions_fit;
          requests_fit =
              fits_after_put n.environment n.execution_handle (record_document n) db.executions
                (values db.requests) same_bootstrap c.requests_fit;
          executions_filed =
              put-Filed handle_of n.execution_handle (record_document n) db.executions refl
                c.executions_filed;
          requests_filed = c.requests_filed;
          count = count;
          cost = cost;
          active =
              put_last_cleaned n.execution_handle j (record_document n) x db.executions found
                unclean closed only;
          recent = c.recent;
        }

    in_memory-next :
        in_memory a next
        ≡ record (in_memory a db) { records = put n.execution_handle n (in_memory a db).records }
    in_memory-next =
        rw (sym (put-on_values record_of n.execution_handle (record_document n) db.executions)) refl

    pub write_replacement_lem : Refines u a n.environment last (write_replacement db c.document n) (
      record (in_memory a db) { records = put n.execution_handle n (in_memory a db).records },
      true,
    )
    unfolding write_replacement
    write_replacement_lem = elim (Bool-cases (is_cleaned n.state)) [
      | inr open_ ↦ rw open_ (refl, in_memory-next, kept-Consistent open_)
      | inl closed ↦
          rw (closed, released_environment-fits u c.document n ok c.fits)
            (refl, in_memory-next, released-Consistent closed)
    ]

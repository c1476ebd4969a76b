-- ===== src/Controller/Firestore/Replacing.antt =====
-- `compareAndSet` of apps/gpu-controller/src/firestore-control-store.ts against that of
-- apps/gpu-controller/src/control-store.ts.
mod Written
use mathlib.Core.Path.{subst}
use scribe_drop.Common.{
  ℕ, ◌⊎◌, ◌+◌, ◌≡◌, refl, sym, ap, ◌∙◌, String, Bool, true, false, ◌&&◌, [], ◌∷◌, some, arith, ◌==◌,
  length, Bool-cases, Option-cases, is_iff, inl, inr,
}
use scribe_drop.Common.Assoc.{lookup, put, values, on_some, lookup-on_values, put-on_values}
use scribe_drop.Common.Filed.{put-Filed, put-All}
use scribe_drop.Controller.Contracts.{Environment, same_environment}
use scribe_drop.Controller.Record.{ControlRecord, is_cleaned, same_time}
use scribe_drop.Controller.Store.{ControlStore, SyntheticAuthorization, same_origin, sum_reserved}
use scribe_drop.Controller.Store.{compare_and_set as memory_compare_and_set}
use scribe_drop.Controller.Firestore.Documents.{
  ExecutionDocument, valid_record, earlier, record_document, valid_execution_document,
}
use scribe_drop.Controller.Firestore.Database.{
  Database, Answer, released_environment, set_environment,
}
use scribe_drop.Controller.Firestore.Replace.{
  allows, holds_active, write_replacement, replace_parsed, replace_transaction, compare_and_set,
}
use scribe_drop.Controller.Persistence.{same_origin_fields}
use scribe_drop.Controller.Firestore.Consistent.{
  Consistent, in_memory, record_of, handle_of, records_of, unclean_handles, active_list,
  execution_fits, Refines,
}
use scribe_drop.Controller.Firestore.Agreement.{
  reads_environment, reads_authorized, found_execution, same_environment_refl, same_time_refl,
  names_environment, active_bound, active_bound,
}
use scribe_drop.Controller.Firestore.Growth.{
  fits_after_put, put_counts, put_unclean, put_last_cleaned, found_unclean, unclean_nonempty,
}
use scribe_drop.Controller.Firestore.Fitting.{released_environment-fits}
use scribe_drop.Controller.Firestore.Replacing.Written.{
  active_is, unclean as still_open, write_replacement_lem,
}

-- What this store asks of a replacement beyond what the store in memory asks.
abbrev pub Stricter : ControlRecord → ControlRecord → Type 0
Stricter n x =
    (same_time n.expires_at x.expires_at ≡ false)
    ⊎ ((earlier n.updated_at x.updated_at ≡ true) ⊎ (is_cleaned x.state ≡ true))

-- A replacement is made as in memory; or it is refused and changes nothing, and the store in memory
-- refuses it too or lacks a test of this one that the stored record fails.
abbrev pub ReplacedAlike :
    (String → Bool)
    → (Environment → SyntheticAuthorization)
    → ControlRecord
    → ℕ
    → Database
    → Database × Answer Bool
    → ControlStore × Bool
    → Type 0
ReplacedAlike u a n last db r m =
    (Refines u a n.environment last r m × (m.1 ≡ true))
    ⊎ ((r ≡ (db, Answer.answered false))
        × ((m.1 ≡ false)
            ⊎ ((x : ControlRecord) × (lookup n.execution_handle (in_memory a db).records ≡ some x)
                × Stricter n x)))

module _ (u : String → Bool) (a : Environment → SyntheticAuthorization) (v : ℕ) (n : ControlRecord)
    (last : ℕ) (db : Database) (c : Consistent u a n.environment last db)
    (ok : valid_record u n ≡ true) where
  -- Where this store refuses, so does the store in memory, or the stored record fails a test that it lacks.
  refused :
      (x : ExecutionDocument)
      → allows x.control_record v n ≡ false
      → ((x.control_record.version == v && (n.version == v + 1 && same_origin n x.control_record))
          ≡ false)
        ⊎ Stricter n x.control_record
  unfolding allows
  refused x h = elim (Bool-cases (same_time n.expires_at x.control_record.expires_at)) [
    | inr other ↦ inr (inl other)
    | inl same ↦ elim (Bool-cases (earlier n.updated_at x.control_record.updated_at)) [
      | inl older ↦ inr (inr (inl older))
      | inr newer ↦ elim (Bool-cases (is_cleaned x.control_record.state)) [
        | inl over ↦ inr (inr (inr over))
        | inr unclean ↦ inl (ground arith)
      ]
    ]
  ]

  allows→memory :
      (x : ExecutionDocument)
      → allows x.control_record v n ≡ true
      → (x.control_record.version == v && (n.version == v + 1 && same_origin n x.control_record))
        ≡ true
  unfolding allows
  allows→memory x h = ground arith

  replace_parsed_lem :
      (x : ExecutionDocument)
      → lookup n.execution_handle db.executions ≡ some x
      → ReplacedAlike u a n last db
          (replace_parsed db c.document x.control_record v n)
          (memory_compare_and_set (in_memory a db) v n)
  unfolding replace_parsed memory_compare_and_set
  replace_parsed_lem x found =
      let stored =
        lookup-on_values record_of n.execution_handle db.executions
        ∙ ap (on_some record_of) found in
      elim (Bool-cases (allows x.control_record v n)) [
        | inl allowed ↦
            let (active, _) =
              active_is u a v n last db c ok x found
                (still_open u a v n last db c ok x found allowed) in
            rw
              (
                allowed,
                active,
                stored,
                allows→memory x allowed,
                replace_parsed,
                memory_compare_and_set,
              )
              (inl (write_replacement_lem u a v n last db c ok x found allowed, refl))
        | inr strict ↦ elim (refused x strict) [
          | inl both ↦
              rw (strict, stored, both, replace_parsed, memory_compare_and_set)
                (inr (refl, inl refl))
          | inr reason ↦
              rw (strict, replace_parsed) (inr (refl, inr (x.control_record, stored, reason)))
        ]
      ]

  replace_transaction_lem :
      ReplacedAlike u a n last db
        (replace_transaction u (a n.environment) db v n)
        (memory_compare_and_set (in_memory a db) v n)
  unfolding replace_transaction memory_compare_and_set
  replace_transaction_lem =
      let reads = reads_environment u a n.environment last db c in
      let ours = reads_authorized u a n.environment last db c in
      let stored = lookup-on_values record_of n.execution_handle db.executions in
      elim (Option-cases (lookup n.execution_handle db.executions)) [
        | inl missing ↦
            rw (reads, ours, missing, stored, missing, replace_transaction, memory_compare_and_set)
              (inr (refl, inl refl))
        | inr (x, found) ↦
            let (parsed, _, _, _) =
              found_execution u a n.environment last db c n.execution_handle x found in
            rw (reads, ours, found, replace_transaction, parsed) (replace_parsed_lem x found)
      ]

-- A replacement by a record of the store's environment that fits its schema either is made over
-- consistent documents as the store in memory makes it, and the documents then stand for what the store
-- in memory has become and are consistent; or it answers false and changes nothing, where the store in
-- memory answers false too, or the stored record expires at another time, was updated later, or is
-- cleaned.
pub compare_and_set-ReplacedAlike :
    (u : String → Bool) (a : Environment → SyntheticAuthorization) (v : ℕ) (n : ControlRecord)
    (last : ℕ) (db : Database)
    → Consistent u a n.environment last db
    → valid_record u n ≡ true
    → ReplacedAlike u a n last db
        (compare_and_set u (a n.environment) db v n)
        (memory_compare_and_set (in_memory a db) v n)
unfolding compare_and_set
compare_and_set-ReplacedAlike u a v n last db c ok =
    let e = n.environment in
    let ours : same_environment e (a e).environment ≡ true =
      subst (λ f. same_environment e f ≡ true) (sym c.own) (same_environment_refl e) in
    rw (ok, ours, compare_and_set) (replace_transaction_lem u a v n last db c ok)

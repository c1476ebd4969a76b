-- ===== src/Controller/Firestore/Reading.antt =====
-- `get` and `listUnclean` of apps/gpu-controller/src/firestore-control-store.ts against those of
-- apps/gpu-controller/src/control-store.ts.
use mathlib.Core.Path.{subst}
use scribe_drop.Common.{
  ℕ, ◌≡◌, refl, sym, ap, ◌∙◌, String, Bool, true, false, not, ◌&&◌, List, [], ◌∷◌, some, arith,
  ◌is◌, length, keep, if◌then◌else◌, Bool-cases, Option-cases, is_iff, inl, inr, All,
}
use scribe_drop.Common.Assoc.{lookup, values, on_values, lookup-on_values}
use scribe_drop.Common.Filed.{Filed}
use scribe_drop.Controller.Contracts.{Environment, same_environment}
use scribe_drop.Controller.Record.{ControlRecord, is_cleaned}
use scribe_drop.Controller.Store.{SyntheticAuthorization}
use scribe_drop.Controller.Store.{get as memory_get, list_unclean as memory_list_unclean}
use scribe_drop.Controller.Firestore.Documents.{ExecutionDocument, is_opaque_handle}
use scribe_drop.Controller.Firestore.Database.{Database, Answer}
use scribe_drop.Controller.Firestore.Read.{get, list_active, list_bound, list_unclean}
use scribe_drop.Controller.Firestore.Consistent.{
  Consistent, in_memory, record_of, handle_of, unclean_handles, active_list, execution_fits,
}
use scribe_drop.Controller.Firestore.Agreement.{
  reads_environment, reads_authorized, found_execution, same_environment_refl, active_bound,
  active_bound,
}

-- The unclean records in memory, of documents that are all of one environment.
unclean_records : List ExecutionDocument → List ControlRecord
unclean_records [] = []
unclean_records (x ∷ xs) =
    if is_cleaned x.control_record.state
    then unclean_records xs
    else x.control_record ∷ unclean_records xs

list_unclean_records :
    (u : String → Bool) (e : Environment) (m : List (String × ExecutionDocument))
    → All (λ x. execution_fits u e x ≡ true) (values m)
    → keep
        (λ r. same_environment r.environment e && not (is_cleaned r.state))
        (values (on_values record_of m))
      ≡ unclean_records (values m)
unfolding unclean_records
list_unclean_records u e [] a = refl
list_unclean_records u e ((k, x) ∷ m) (p, a) = ground (arith, list_unclean_records u e m a)

no_unclean : (xs : List ExecutionDocument) → unclean_handles xs ≡ [] → unclean_records xs ≡ []
unfolding unclean_records
no_unclean [] h = refl
no_unclean (x ∷ xs) h = ground (arith, no_unclean xs)

-- The only unclean record is the one that its handle finds.
only_unclean :
    (j : String) (m : List (String × ExecutionDocument))
    → Filed handle_of m
    → unclean_handles (values m) ≡ j ∷ []
    → (x : ExecutionDocument) × (lookup j m ≡ some x)
      × (is_cleaned x.control_record.state ≡ false)
      × (unclean_records (values m) ≡ x.control_record ∷ [])
unfolding lookup unclean_records
only_unclean j [] filed only = absurd (cc)
only_unclean j ((k, w) ∷ m) (own, once, filed) only =
    elim (Bool-cases (is_cleaned w.control_record.state)) [
      | inl over ↦
          let (x, found, open_, rest) = only_unclean j m filed (ground arith) in
          elim (Bool-cases (k is j)) [
            | inl same ↦ absurd (cc (once, found, (is_iff k j).0 same))
            | inr other ↦ (x, rw other found, open_, rw over rest)
          ]
      | inr open_ ↦
          let head : handle_of w ≡ j = ground arith in
          (
            w,
            rw ((is_iff k j).1 (sym own ∙ head)) refl,
            open_,
            rw open_ (ap (λ rs. w.control_record ∷ rs) (no_unclean (values m) (ground arith))),
          )
    ]

module _ (u : String → Bool) (a : Environment → SyntheticAuthorization) (e : Environment) (last : ℕ)
    (db : Database) (c : Consistent u a e last db) where
  listed : memory_list_unclean (in_memory a db) e ≡ unclean_records (values db.executions)
  unfolding memory_list_unclean
  listed = list_unclean_records u e db.executions c.executions_fit

  list_bound_lem :
      list_bound u db c.document e ≡ Answer.answered (unclean_records (values db.executions))
  unfolding list_bound list_active
  list_bound_lem =
      let (count, _) = active_bound c.document c.fits in
      elim (Option-cases c.document.active_execution_handle) [
        | inl closed ↦
            let empty = no_unclean (values db.executions) (c.active ∙ ap active_list closed) in
            let zero_active : c.document.active_executions ≡ 0 =
              sym count ∙ ap (λ h. length (active_list h)) closed in
            rw (closed, zero_active, empty, list_bound) refl
        | inr (j, bound) ↦
            let (x, found, open_, only) =
              only_unclean j db.executions c.executions_filed (c.active ∙ ap active_list bound) in
            let (parsed, _, here, _) = found_execution u a e last db c j x found in
            let one : c.document.active_executions ≡ 1 =
              sym count ∙ ap (λ h. length (active_list h)) bound in
            let ours : same_environment x.control_record.environment e ≡ true =
              subst (λ f. same_environment f e ≡ true) (sym here) (same_environment_refl e) in
            rw (bound, one, found, parsed, ours, open_, only, list_bound, list_active) refl
      ]

  get_lem :
      (k : String)
      → is_opaque_handle k ≡ true
      → get u (a e) db k ≡ Answer.answered (memory_get (in_memory a db) k)
  unfolding get memory_get
  get_lem k ok =
      let stored = lookup-on_values record_of k db.executions in
      elim (Option-cases (lookup k db.executions)) [
        | inl missing ↦ rw (ok, missing, stored, missing, get, memory_get) refl
        | inr (x, found) ↦
            let (parsed, _, here, _) = found_execution u a e last db c k x found in
            let ours : same_environment x.control_record.environment (a e).environment ≡ true =
              subst (λ f. same_environment f (a e).environment ≡ true) (sym here)
                (subst (λ f. same_environment e f ≡ true) (sym c.own) (same_environment_refl e)) in
            rw (ok, found, stored, found, parsed, ours, get, memory_get) refl
      ]

-- Over consistent documents, `listUnclean` of the store's environment and `get` of a handle that fits
-- its schema never throw, and answer what the store in memory answers.
pub reads_alike :
    (u : String → Bool) (a : Environment → SyntheticAuthorization) (e : Environment) (last : ℕ)
    (db : Database) (k : String)
    → Consistent u a e last db
    → is_opaque_handle k ≡ true
    → (list_unclean u (a e) db e ≡ Answer.answered (memory_list_unclean (in_memory a db) e))
      × (get u (a e) db k ≡ Answer.answered (memory_get (in_memory a db) k))
unfolding list_unclean
reads_alike u a e last db k c ok =
    let ours : same_environment e (a e).environment ≡ true =
      subst (λ f. same_environment e f ≡ true) (sym c.own) (same_environment_refl e) in
    (
      rw
          (
            ours,
            reads_environment u a e last db c,
            reads_authorized u a e last db c,
            list_unclean,
            list_bound_lem u a e last db c,
          )
          (ap Answer.answered (sym (listed u a e last db c))),
      get_lem u a e last db c k ok,
    )

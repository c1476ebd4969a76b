-- ===== src/Controller/Firestore/Limits.antt =====
-- What the documents of apps/gpu-controller/src/firestore-control-store.ts never come to.
use scribe_drop.Common.{ℕ, ◌≤◌, ◌≡◌, ◌≢◌, ap, String, Bool, true, false, some, arith, length}
use scribe_drop.Common.Assoc.{lookup, values}
use scribe_drop.Controller.Contracts.{Environment}
use scribe_drop.Controller.Record.{ControlRecord, is_cleaned}
use scribe_drop.Controller.Store.{SyntheticAuthorization, sum_reserved, active_count}
use scribe_drop.Controller.Firestore.Documents.{ExecutionDocument, parse_record_document}
use scribe_drop.Controller.Firestore.Database.{Database, Answer}
use scribe_drop.Controller.Firestore.Replace.{
  allows, replace_parsed, replace_transaction, compare_and_set,
}
use scribe_drop.Controller.Firestore.Consistent.{records_of}
use scribe_drop.Controller.Firestore.Agreement.{
  active_bound, length-records_of, active_count-records_of,
}
use scribe_drop.Controller.Firestore.Fitting.{bounds, at_most_one_active}
use scribe_drop.Controller.Firestore.Reachable.{Reachable, Reachable-Consistent}

-- In a database that calls have made, as long as the times of requests never go back, and these times
-- and the expiries of create requests are written as `toISOString` writes them, the records' reservations never add up to more than the authorization
-- allows, there are never more records than it allows, and at most one is not cleaned.
pub reachable_limits :
    (u : String → Bool) (a : Environment → SyntheticAuthorization) (e : Environment) (last : ℕ)
    (db : Database)
    → Reachable u a e last db
    → (sum_reserved (records_of (values db.executions)) ≤ (a e).max_worst_case_jpy)
      × (length (records_of (values db.executions)) ≤ (a e).max_executions)
      × (active_count (records_of (values db.executions)) ≤ 1)
reachable_limits u a e last db reach =
    let c = Reachable-Consistent u a e last db reach in
    let (_, _, _, active_reserved, count, _, cost) = bounds c.document c.fits in
    let (active, _) = active_bound c.document c.fits in
    let most = ap (λ s. s.max_executions) c.authorized in
    let most_cost = ap (λ s. s.max_worst_case_jpy) c.authorized in
    let handles = ap length c.active in
    let counted = length-records_of (values db.executions) in
    let unclean = active_count-records_of (values db.executions) in
    let one = at_most_one_active c.document c.fits in
    (omega (arith, c.cost), omega (arith, c.count), omega arith)

allows_cleaned : (r n : ControlRecord) (v : ℕ) → is_cleaned r.state ≡ true → allows r v n ≡ false
unfolding allows
allows_cleaned r n v h = ground arith

-- Whatever the documents, a record that is cleaned is never replaced.
pub cleaned_stays :
    (u : String → Bool) (s : SyntheticAuthorization) (db : Database) (v : ℕ) (n : ControlRecord)
    (x : ExecutionDocument)
    → lookup n.execution_handle db.executions ≡ some x
    → is_cleaned x.control_record.state ≡ true
    → ((compare_and_set u s db v n).0 ≡ db)
      × ((compare_and_set u s db v n).1 ≢ Answer.answered true)
unfolding compare_and_set replace_transaction replace_parsed parse_record_document
cleaned_stays u s db v n x found over =
    let refused : allows x.control_record v n ≡ false = allows_cleaned x.control_record n v over in
    (ground (arith, found, refused), (λ h. ground (arith, found, refused, h)))

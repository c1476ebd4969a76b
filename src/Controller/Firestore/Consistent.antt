-- ===== src/Controller/Firestore/Consistent.antt =====
-- What the documents of apps/gpu-controller/src/firestore-control-store.ts agree on, and the store of
-- apps/gpu-controller/src/control-store.ts that they stand for.
use scribe_drop.Common.{
  ℕ, ◌≡◌, String, Bool, true, false, not, ◌&&◌, List, [], ◌∷◌, Option, none, some, ◌is◌, length,
  keep, All, if◌then◌else◌, ◌||◌,
}
use scribe_drop.Common.Assoc.{lookup, values, on_values}
use scribe_drop.Common.Filed.{Filed}
use scribe_drop.Controller.Contracts.{Environment, Action, same_environment, same_action}
use scribe_drop.Controller.Record.{Timestamp, ControlRecord, is_cleaned}
use scribe_drop.Controller.Store.{
  SyntheticAuthorization, RememberedRequest, ControlStore, sum_reserved, within_window,
}
use scribe_drop.Controller.Firestore.Documents.{
  EnvironmentDocument, RequestDocument, ExecutionDocument, valid_environment, valid_request,
  valid_execution_document,
}
use scribe_drop.Controller.Firestore.Database.{Database, Answer}

abbrev pub record_of : ExecutionDocument → ControlRecord
record_of x = x.control_record

abbrev pub handle_of : ExecutionDocument → String
handle_of x = x.control_record.execution_handle

abbrev pub request_id_of : RequestDocument → String
request_id_of q = q.identity.request_id

abbrev pub remembered_of : RequestDocument → RememberedRequest
remembered_of q = record { identity = q.identity; accepted_at = q.accepted_at }

-- The store in memory that the documents stand for.
abbrev pub in_memory : (Environment → SyntheticAuthorization) → Database → ControlStore
in_memory authorizations db = record {
  authorizations = authorizations;
  records = on_values record_of db.executions;
  requests = on_values remembered_of db.requests;
}

abbrev pub records_of : List ExecutionDocument → List ControlRecord
records_of [] = []
records_of (x ∷ xs) = x.control_record ∷ records_of xs

abbrev pub accepted_times : List RequestDocument → List Timestamp
accepted_times [] = []
accepted_times (q ∷ qs) = q.accepted_at ∷ accepted_times qs

-- The handles of the records that are not cleaned.
abbrev pub unclean_handles : List ExecutionDocument → List String
unclean_handles [] = []
unclean_handles (x ∷ xs) =
    if is_cleaned x.control_record.state
    then unclean_handles xs
    else x.control_record.execution_handle ∷ unclean_handles xs

abbrev pub active_list : Option String → List String
active_list none = []
active_list (some handle) = handle ∷ []

-- A create request stands for the record that it made.
abbrev pub made_by : String → Option ExecutionDocument → Bool
made_by id none = false
made_by id (some x) = x.control_record.bootstrap_request_id is id

abbrev pub execution_fits : (String → Bool) → Environment → ExecutionDocument → Bool
execution_fits is_uuid e x =
    valid_execution_document is_uuid x && same_environment x.control_record.environment e

abbrev pub request_fits : Environment → List (String × ExecutionDocument) → RequestDocument → Bool
request_fits e executions q =
    valid_request q
    && (same_environment q.identity.environment e
        && (not (same_action q.identity.action Action.create)
            || made_by q.identity.request_id (lookup q.identity.execution_handle executions)))

-- The documents of one environment, of which the last request was accepted at `last` or before: each
-- fits its schema and its path, the environment's document counts the records, their reservations and
-- the recent requests, and it names the record that is not cleaned, of which there is at most one.
pub record Consistent (is_uuid : String → Bool)
    (authorizations : Environment → SyntheticAuthorization) (e : Environment) (last : ℕ)
    (db : Database) : Type 0 where
  pub document : EnvironmentDocument
  pub own : (authorizations e).environment ≡ e
  pub found : db.environments e ≡ some document
  pub authorized : document.authorization ≡ authorizations e
  pub fits : valid_environment document ≡ true
  pub executions_fit : All (λ x. execution_fits is_uuid e x ≡ true) (values db.executions)
  pub requests_fit : All (λ q. request_fits e db.executions q ≡ true) (values db.requests)
  pub executions_filed : Filed handle_of db.executions
  pub requests_filed : Filed request_id_of db.requests
  pub count : length (values db.executions) ≡ document.reserved_executions
  pub cost : sum_reserved (records_of (values db.executions)) ≡ document.reserved_worst_case_jpy
  pub active : unclean_handles (values db.executions) ≡ active_list document.active_execution_handle
  pub recent :
      keep (within_window last) document.recent_accepted_at
      ≡ keep (within_window last) (accepted_times (values db.requests))

-- A call answers as the store in memory does, the documents stand for what it has become, and they
-- agree with each other again.
abbrev pub Refines :
    {A : Type 0}
    → (String → Bool)
    → (Environment → SyntheticAuthorization)
    → Environment
    → ℕ
    → Database × Answer A
    → ControlStore × A
    → Type 0
Refines u authorizations e now (db, r) (s, m) =
    (r ≡ Answer.answered m)
    × (in_memory authorizations db ≡ s)
    × Consistent u authorizations e now db

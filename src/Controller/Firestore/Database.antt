-- ===== src/Controller/Firestore/Database.antt =====
-- The database of apps/gpu-controller/src/firestore-control-store.ts: the documents of the three
-- collections by their paths. A transaction runs alone, on the documents that it reads, and one that
-- throws writes nothing: the database repeats a transaction that met another. Documents past their time
-- to live are still there.
use scribe_drop.Common.{
  ℕ, ◌+◌, String, Bool, not, ◌&&◌, ◌||◌, List, [], ◌∷◌, ◌++◌, Option, none, some, ltb, leb, ◌==◌,
  length, is_some, if◌then◌else◌,
}
use scribe_drop.Controller.Contracts.{Environment, same_environment}
use scribe_drop.Controller.Record.{Timestamp, ControlRecord, before}
use scribe_drop.Controller.Store.{SyntheticAuthorization, RequestIdentity, AdmitCreateInput}
use scribe_drop.Controller.Firestore.Documents.{
  EnvironmentDocument, RequestDocument, ExecutionDocument, valid_authorization, valid_environment,
  prune_recent, is_utc, date_of,
}

pub record Database : Type 0 where
  pub environments : Environment → Option EnvironmentDocument
  pub executions : List (String × ExecutionDocument)
  pub requests : List (String × RequestDocument)

-- What a call answers, or that it throws.
pub data Answer {ℓ} (A : Type ℓ) : Type ℓ where
  answered : A → Answer A
  thrown : Answer A

abbrev pub fresh_document : SyntheticAuthorization → Timestamp → EnvironmentDocument
fresh_document authorization now = record {
  authorization = authorization;
  active_execution_handle = none;
  active_executions = 0;
  recent_accepted_at = [];
  reserved_executions = 0;
  reserved_worst_case_jpy = 0;
  updated_at = now;
}

-- `createFirestoreEnvironmentDocument`, `none` where it throws.
unfoldable pub create_firestore_environment_document :
    SyntheticAuthorization → Timestamp → Option EnvironmentDocument
unfolding valid_authorization valid_environment
create_firestore_environment_document authorization now =
    if valid_authorization authorization
      && (is_utc now && valid_environment (fresh_document authorization now))
    then some (fresh_document authorization now)
    else none

-- `environmentDocumentSchema.parse` of what stands under a path, which throws where nothing does.
unfoldable pub read_environment : Database → Environment → Option EnvironmentDocument
unfolding valid_environment
read_environment db environment = elim (db.environments environment) [
  | none ↦ none
  | some d ↦ if valid_environment d then some d else none
]

abbrev pub set_environment :
    EnvironmentDocument → Database → Environment → Option EnvironmentDocument
set_environment d db environment =
    if same_environment d.authorization.environment environment
    then some d
    else db.environments environment

-- The tests behind which `admitCreate` answers `budget_exhausted` and `rate_limited`.
unfoldable pub is_exhausted : EnvironmentDocument → ℕ → Bool
is_exhausted d now =
    before d.authorization.valid_until now
    || (not (d.active_executions == 0)
        || (is_some d.active_execution_handle
            || (leb d.authorization.max_executions d.reserved_executions
                || (leb d.authorization.worst_case_jpy_per_execution 0
                    || ltb d.authorization.max_worst_case_jpy (
                        d.reserved_worst_case_jpy
                        + d.authorization.worst_case_jpy_per_execution)))))

unfoldable pub is_limited : EnvironmentDocument → ℕ → Bool
unfolding prune_recent
is_limited d now =
    leb d.authorization.max_requests_per_minute 0
    || leb d.authorization.max_requests_per_minute (length (prune_recent d now))

unfoldable pub request_document : RequestIdentity → Timestamp → Timestamp → RequestDocument
request_document identity now ttl = record {
  identity = identity;
  accepted_at = now;
  ttl_expires_at = date_of ttl;
}

-- The environment's document behind an admission, and behind a claim.
unfoldable pub admitted_environment :
    EnvironmentDocument → AdmitCreateInput → ℕ → EnvironmentDocument
unfolding prune_recent
admitted_environment d input now = record d {
  active_execution_handle = some input.execution_handle;
  active_executions = 1;
  recent_accepted_at = prune_recent d now ++ (input.now ∷ []);
  reserved_executions = d.reserved_executions + 1;
  reserved_worst_case_jpy =
      d.reserved_worst_case_jpy + d.authorization.worst_case_jpy_per_execution;
  updated_at = input.now;
}

unfoldable pub claimed_environment : EnvironmentDocument → Timestamp → ℕ → EnvironmentDocument
unfolding prune_recent
claimed_environment d time now = record d {
  recent_accepted_at = prune_recent d now ++ (time ∷ []);
  updated_at = time;
}

-- The environment's document behind the replacement of the active record by a cleaned one.
unfoldable pub released_environment : EnvironmentDocument → ControlRecord → EnvironmentDocument
released_environment d next = record d {
  active_execution_handle = none;
  active_executions = 0;
  updated_at = next.updated_at;
}

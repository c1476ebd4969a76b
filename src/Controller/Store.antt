-- ===== src/Controller/Store.antt =====
-- The store of apps/gpu-controller/src/control-store.ts: control records by execution handle, the
-- requests that were accepted, and the budget under which an execution is admitted. A clone of a value
-- is the value.
pub mod Outcomes
pub mod Results
pub mod Defaults
use scribe_drop.Common.{
  ℕ, ◌+◌, String, Bool, true, false, not, ◌&&◌, ◌||◌, List, [], ◌∷◌, Option, none, some, ltb, leb,
  ◌==◌, ◌is◌, if◌then◌else◌, length, keep, is_some,
}
use scribe_drop.Common.Assoc.{lookup, put, values}
use scribe_drop.Controller.Contracts.{Environment, Action, same_environment, same_action}
use scribe_drop.Controller.Record.{
  Timestamp, at, written_at, unparsable, ControlState, ControlRecord, is_cleaned, before, same_time,
}

pub record SyntheticAuthorization : Type 0 where
  pub environment : Environment
  pub epoch : String
  pub valid_until : Timestamp
  pub max_executions : ℕ
  pub max_worst_case_jpy : ℕ
  pub max_requests_per_minute : ℕ
  pub worst_case_jpy_per_execution : ℕ

pub record RequestIdentity : Type 0 where
  pub request_id : String
  pub digest : String
  pub environment : Environment
  pub execution_handle : String
  pub action : Action

pub record AdmitCreateInput : Type 0 where
  pub identity : RequestIdentity
  pub open identity use *
  pub job_id : String
  pub now : Timestamp
  pub provisioning_deadline : Timestamp
  pub record_expires_at : Timestamp

pub record ClaimRequestInput : Type 0 where
  pub identity : RequestIdentity
  pub open identity use *
  pub expected_version : ℕ
  pub now : Timestamp

pub data AdmitCreateResult : Type 0 where
  accepted duplicate : ControlRecord → AdmitCreateResult
  budget_exhausted conflict environment_mismatch rate_limited : AdmitCreateResult

pub data ClaimRequestResult : Type 0 where
  accepted duplicate stale : ControlRecord → ClaimRequestResult
  conflict environment_mismatch not_found rate_limited : ClaimRequestResult

pub record RememberedRequest : Type 0 where
  pub identity : RequestIdentity
  pub open identity use *
  pub accepted_at : Timestamp

pub record ControlStore : Type 0 where
  pub authorizations : Environment → SyntheticAuthorization
  pub records : List (String × ControlRecord)
  pub requests : List (String × RememberedRequest)

unfoldable pub same_request : RequestIdentity → RequestIdentity → Bool
same_request a b =
    a.digest is b.digest
    && (same_environment a.environment b.environment
        && (a.execution_handle is b.execution_handle && same_action a.action b.action))

-- The records of one environment.
unfoldable pub existing : Environment → ControlStore → List ControlRecord
existing environment s = keep (λ r. same_environment r.environment environment) (values s.records)

abbrev pub sum_reserved : List ControlRecord → ℕ
sum_reserved [] = 0
sum_reserved (r ∷ rs) = r.reserved_worst_case_jpy + sum_reserved rs

abbrev pub active_count : List ControlRecord → ℕ
active_count rs = length (keep (λ r. not (is_cleaned r.state)) rs)

-- `Date.parse(acceptedAt) > now - 60_000`, written without the negative number.
abbrev pub within_window : ℕ → Timestamp → Bool
within_window now (at t) = ltb now (t + 60000)
within_window now (written_at t utc text) = ltb now (t + 60000)
within_window now (unparsable text) = false

unfoldable pub is_rate_limited : ControlStore → Environment → ℕ → ℕ → Bool
is_rate_limited s environment now max_per_minute =
    leb max_per_minute 0
    || leb max_per_minute (
        length (
          keep
            (λ q.
              same_environment q.identity.environment environment
              && within_window now q.accepted_at)
            (values s.requests)))

-- The answer to a request that is remembered; `none` goes on.
unfoldable pub remembered_record : ControlStore → RequestIdentity → Option (Option ControlRecord)
unfolding same_request
remembered_record s input = elim (lookup input.request_id s.requests) [
  | none ↦ none
  | some request ↦ elim (lookup request.identity.execution_handle s.records) [
    | none ↦ some none
    | some r ↦ some (if same_request request.identity input then some r else none)
  ]
]

unfoldable pub new_record : AdmitCreateInput → ℕ → ControlRecord
new_record input reserved = record {
  bootstrap_request_id = input.request_id;
  environment = input.environment;
  execution_handle = input.execution_handle;
  job_id = input.job_id;
  state = ControlState.create_intent;
  version = 1;
  create_attempts = 0;
  run_intent = false;
  cancel_intent = false;
  cleanup_intent = false;
  job = none;
  execution = none;
  operation_ref = none;
  error_code = none;
  reserved_worst_case_jpy = reserved;
  created_at = input.now;
  updated_at = input.now;
  provisioning_deadline = input.provisioning_deadline;
  expires_at = input.record_expires_at;
}

unfoldable pub over_budget : SyntheticAuthorization → List ControlRecord → ℕ → Bool
over_budget authorization rs now =
    before authorization.valid_until now
    || (leb 1 (active_count rs)
        || (leb authorization.max_executions (length rs)
            || (leb authorization.worst_case_jpy_per_execution 0
                || ltb authorization.max_worst_case_jpy
                    (sum_reserved rs + authorization.worst_case_jpy_per_execution))))

abbrev pub remember : RequestIdentity → Timestamp → RememberedRequest
remember identity now = record { identity = identity; accepted_at = now }

-- The tests of `admitCreate` behind the environment's, at a time that can be read.
unfoldable pub admit_at : ControlStore → AdmitCreateInput → ℕ → ControlStore × AdmitCreateResult
unfolding over_budget is_rate_limited existing new_record
admit_at s input now =
    let authorization = s.authorizations input.environment in
    let r = new_record input authorization.worst_case_jpy_per_execution in
    if over_budget authorization (existing input.environment s) now
    then (s, AdmitCreateResult.budget_exhausted)
    else if is_rate_limited s input.environment now authorization.max_requests_per_minute
    then (s, AdmitCreateResult.rate_limited)
    else (
      record s {
        records = put input.execution_handle r s.records;
        requests = put input.request_id (remember input.identity input.now) s.requests;
      },
      AdmitCreateResult.accepted r,
    )

-- The same, where `Date.parse` may not read the time.
unfoldable pub admit_within :
    ControlStore → AdmitCreateInput → Timestamp → ControlStore × AdmitCreateResult
unfolding admit_at
admit_within s input (unparsable text) = (s, AdmitCreateResult.budget_exhausted)
admit_within s input (written_at now utc text) = admit_at s input now
admit_within s input (at now) = admit_at s input now

unfoldable pub admit_create : ControlStore → AdmitCreateInput → ControlStore × AdmitCreateResult
unfolding remembered_record admit_within
admit_create s input = elim (remembered_record s input.identity) [
  | some (some r) ↦ (s, AdmitCreateResult.duplicate r)
  | some none ↦ (s, AdmitCreateResult.conflict)
  | none ↦
      if is_some (lookup input.execution_handle s.records)
      then (s, AdmitCreateResult.conflict)
      else if same_environment (s.authorizations input.environment).environment input.environment
      then admit_within s input input.now
      else (s, AdmitCreateResult.environment_mismatch)
]

-- The tests of `claimRequest` on the record that it finds, at a time that can be read.
unfoldable pub claim_at :
    ControlStore → ClaimRequestInput → ControlRecord → ℕ → ControlStore × ClaimRequestResult
unfolding is_rate_limited
claim_at s input r now =
    let authorization = s.authorizations input.environment in
    if not (same_environment r.environment input.environment)
    then (s, ClaimRequestResult.environment_mismatch)
    else if not (r.version == input.expected_version)
    then (s, ClaimRequestResult.stale r)
    else if is_rate_limited s input.environment now authorization.max_requests_per_minute
    then (s, ClaimRequestResult.rate_limited)
    else (
      record s { requests = put input.request_id (remember input.identity input.now) s.requests },
      ClaimRequestResult.accepted r,
    )

-- The same, where `Date.parse` may not read the time.
unfoldable pub claim_record :
    ControlStore → ClaimRequestInput → ControlRecord → Timestamp → ControlStore × ClaimRequestResult
unfolding claim_at
claim_record s input r (unparsable text) =
    if not (same_environment r.environment input.environment)
    then (s, ClaimRequestResult.environment_mismatch)
    else if not (r.version == input.expected_version)
    then (s, ClaimRequestResult.stale r)
    else (s, ClaimRequestResult.rate_limited)
claim_record s input r (written_at now utc text) = claim_at s input r now
claim_record s input r (at now) = claim_at s input r now

unfoldable pub claim_request : ControlStore → ClaimRequestInput → ControlStore × ClaimRequestResult
unfolding remembered_record claim_record
claim_request s input = elim (remembered_record s input.identity) [
  | some (some r) ↦ (s, ClaimRequestResult.duplicate r)
  | some none ↦ (s, ClaimRequestResult.conflict)
  | none ↦ elim (lookup input.execution_handle s.records) [
    | none ↦ (s, ClaimRequestResult.not_found)
    | some r ↦ claim_record s input r input.now
  ]
]

-- The fields that no change may touch.
unfoldable pub same_origin : ControlRecord → ControlRecord → Bool
same_origin r current =
    same_environment r.environment current.environment
    && (r.bootstrap_request_id is current.bootstrap_request_id
        && (r.job_id is current.job_id
            && (same_time r.created_at current.created_at
                && r.reserved_worst_case_jpy == current.reserved_worst_case_jpy)))

unfoldable pub compare_and_set : ControlStore → ℕ → ControlRecord → ControlStore × Bool
unfolding same_origin
compare_and_set s expected r = elim (lookup r.execution_handle s.records) [
  | none ↦ (s, false)
  | some current ↦
      if current.version == expected && (r.version == expected + 1 && same_origin r current)
      then (record s { records = put r.execution_handle r s.records }, true)
      else (s, false)
]

unfoldable pub get : ControlStore → String → Option ControlRecord
get s handle = lookup handle s.records

unfoldable pub list_unclean : ControlStore → Environment → List ControlRecord
list_unclean s environment =
    keep (λ r. same_environment r.environment environment && not (is_cleaned r.state))
      (values s.records)

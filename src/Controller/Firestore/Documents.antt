-- ===== src/Controller/Firestore/Documents.antt =====
-- The documents of apps/gpu-controller/src/firestore-control-store.ts and the schemas that they are
-- parsed with: a document is the value that its schema's type describes, a schema the test that
-- `parse` throws by. What a schema fixes to a literal (the policy's id, the schema's version, one task)
-- is the same in all. A `Date` is the text that `toISOString` writes of it. Whether a text is a UUID is the
-- validation library's test.
use scribe_drop.Common.{
  ℕ, ◌*◌, String, Bool, true, false, not, ◌&&◌, ◌||◌, List, [], ◌∷◌, Option, none, some, ltb, leb,
  ◌==◌, ◌is◌, length, keep, if◌then◌else◌,
}
use scribe_drop.Common.Texts.{
  text_length, all_codes, is_base64_url, is_crockford, is_hex, starts_with, drop_characters,
}
use scribe_drop.Controller.Contracts.{Action, same_environment, same_action}
use scribe_drop.Controller.Provider.{ProviderJob, ProviderExecution}
use scribe_drop.Controller.Record.{
  Timestamp, at, written_at, unparsable, parse, ControlRecord, same_time,
}
use scribe_drop.Controller.Store.{
  SyntheticAuthorization, RequestIdentity, AdmitCreateInput, ClaimRequestInput, same_request,
  within_window,
}

pub record EnvironmentDocument : Type 0 where
  pub authorization : SyntheticAuthorization
  pub active_execution_handle : Option String
  pub active_executions : ℕ
  pub recent_accepted_at : List Timestamp
  pub reserved_executions : ℕ
  pub reserved_worst_case_jpy : ℕ
  pub updated_at : Timestamp

pub record RequestDocument : Type 0 where
  pub identity : RequestIdentity
  pub accepted_at : Timestamp
  pub ttl_expires_at : Timestamp

pub record ExecutionDocument : Type 0 where
  pub control_record : ControlRecord
  pub ttl_expires_at : Timestamp

abbrev pub max_recent_requests : ℕ
max_recent_requests = 120

-- `utcDateTimeSchema`.
unfoldable pub is_utc : Timestamp → Bool
is_utc (at t) = true
is_utc (written_at t utc text) = utc
is_utc (unparsable text) = false

-- `Date.parse(a) < Date.parse(b)`, false where one is not a number.
abbrev pub below : Option ℕ → Option ℕ → Bool
below (some a) (some b) = ltb a b
below _ _ = false

unfoldable pub earlier : Timestamp → Timestamp → Bool
earlier s t = below (parse s) (parse t)

-- `new Date(t)`, as the text that `toISOString` writes of it.
abbrev pub date_of : Timestamp → Timestamp
date_of (at t) = at t
date_of (written_at t utc text) = at t
date_of (unparsable text) = unparsable text

-- `^[A-Za-z0-9_-]{43}$`, of `cloudRunOpaqueHandleSchema` and of the digests.
unfoldable pub is_opaque_handle : String → Bool
unfolding text_length all_codes
is_opaque_handle s = text_length s == 43 && all_codes is_base64_url s

-- `^[0-9A-HJKMNP-TV-Z]{26}$`.
unfoldable pub is_ulid : String → Bool
unfolding text_length all_codes
is_ulid s = text_length s == 26 && all_codes is_crockford s

-- `^sd-(?:stg|prd)-[a-f0-9]{30}$`.
unfoldable pub is_job_id : String → Bool
unfolding text_length all_codes starts_with drop_characters
is_job_id s =
    (starts_with "sd-stg-" s || starts_with "sd-prd-" s)
    && (text_length s == 37 && all_codes is_hex (drop_characters 7 s))

-- `z.string().min(1).max(n)`.
unfoldable pub is_bounded : ℕ → String → Bool
unfolding text_length
is_bounded n s = leb 1 (text_length s) && leb (text_length s) n

abbrev pub all_of {ℓ} : {A : Type ℓ} → (A → Bool) → Option A → Bool
all_of p none = true
all_of p (some a) = p a

unfoldable pub valid_authorization : SyntheticAuthorization → Bool
unfolding is_bounded
valid_authorization a =
    is_bounded 128 a.epoch
    && (is_utc a.valid_until
        && (leb a.max_executions 100
            && (leb a.max_worst_case_jpy 10000000
                && (leb a.max_requests_per_minute max_recent_requests
                    && leb a.worst_case_jpy_per_execution 10000000))))

-- The active count and the handle agree.
unfoldable pub active_binding_matches : EnvironmentDocument → Bool
active_binding_matches d = elim d.active_execution_handle [
  | none ↦ d.active_executions == 0
  | some handle ↦ d.active_executions == 1
]

unfoldable pub within_authorization : EnvironmentDocument → Bool
within_authorization d =
    leb d.active_executions d.reserved_executions
    && (leb d.reserved_executions d.authorization.max_executions
        && (d.reserved_worst_case_jpy
              == d.reserved_executions * d.authorization.worst_case_jpy_per_execution
            && leb d.reserved_worst_case_jpy d.authorization.max_worst_case_jpy))

unfoldable pub all_utc : List Timestamp → Bool
all_utc [] = true
all_utc (t ∷ ts) = is_utc t && all_utc ts

unfoldable pub valid_environment : EnvironmentDocument → Bool
unfolding valid_authorization is_opaque_handle active_binding_matches within_authorization
valid_environment d =
    valid_authorization d.authorization
    && (all_of is_opaque_handle d.active_execution_handle
        && (leb d.active_executions 1
            && (all_utc d.recent_accepted_at
                && (leb (length d.recent_accepted_at) max_recent_requests
                    && (leb d.reserved_executions 100
                        && (leb d.reserved_worst_case_jpy 10000000
                            && (is_utc d.updated_at
                                && (active_binding_matches d && within_authorization d))))))))

-- `requestDocumentSchema`: the time to live ends after the acceptance.
unfoldable pub valid_request : RequestDocument → Bool
unfolding is_opaque_handle is_ulid
valid_request q =
    is_opaque_handle q.identity.digest
    && (is_opaque_handle q.identity.execution_handle
        && (is_ulid q.identity.request_id
            && (is_utc q.accepted_at && earlier q.accepted_at q.ttl_expires_at)))

-- `admitCreateInputSchema`.
unfoldable pub valid_admission : AdmitCreateInput → Bool
unfolding is_opaque_handle is_ulid is_job_id
valid_admission i =
    same_action i.identity.action Action.create
    && (is_opaque_handle i.identity.digest
        && (is_opaque_handle i.identity.execution_handle
            && (is_job_id i.job_id
                && (is_ulid i.identity.request_id
                    && (is_utc i.now
                        && (is_utc i.provisioning_deadline
                            && (is_utc i.record_expires_at
                                && (earlier i.now i.provisioning_deadline
                                    && earlier i.provisioning_deadline i.record_expires_at))))))))

-- `claimRequestInputSchema`.
unfoldable pub valid_claim : ClaimRequestInput → Bool
unfolding is_opaque_handle is_ulid
valid_claim i =
    not (same_action i.identity.action Action.create)
    && (is_opaque_handle i.identity.digest
        && (is_opaque_handle i.identity.execution_handle
            && (is_utc i.now && is_ulid i.identity.request_id)))

module _ (is_uuid : String → Bool) where
  unfoldable pub valid_job : ProviderJob → Bool
  unfolding is_bounded
  valid_job j = is_bounded 512 j.etag && (is_bounded 512 j.ref && is_uuid j.uid)

  unfoldable pub valid_execution : ProviderExecution → Bool
  unfolding is_bounded
  valid_execution e =
      is_bounded 512 e.etag && (is_bounded 512 e.job_ref && (is_bounded 512 e.ref && is_uuid e.uid))

  -- `controlRecordSchema`.
  unfoldable pub valid_record : ControlRecord → Bool
  unfolding is_ulid is_opaque_handle is_job_id is_bounded valid_job valid_execution
  valid_record r =
      is_ulid r.bootstrap_request_id
      && (leb r.create_attempts 2
          && (is_utc r.created_at
              && (all_of valid_execution r.execution
                  && (is_opaque_handle r.execution_handle
                      && (is_utc r.expires_at
                          && (all_of valid_job r.job
                              && (is_job_id r.job_id
                                  && (all_of (is_bounded 512) r.operation_ref
                                      && (is_utc r.provisioning_deadline
                                          && (leb 1 r.reserved_worst_case_jpy
                                              && (leb r.reserved_worst_case_jpy 10000000
                                                  && (is_utc r.updated_at
                                                      && leb 1 r.version))))))))))))

  -- `executionDocumentSchema`.
  unfoldable pub valid_execution_document : ExecutionDocument → Bool
  unfolding valid_record
  valid_execution_document x =
      valid_record x.control_record
      && same_time (date_of x.ttl_expires_at) x.control_record.expires_at

  -- `parseRecordDocument`, `none` where it throws.
  unfoldable pub parse_record_document : ExecutionDocument → String → Option ControlRecord
  unfolding valid_execution_document
  parse_record_document x expected_handle =
      if valid_execution_document x && x.control_record.execution_handle is expected_handle
      then some x.control_record
      else none

-- `recordDocument`, of a record that the schema accepts.
abbrev pub record_document : ControlRecord → ExecutionDocument
record_document r = record { control_record = r; ttl_expires_at = date_of r.expires_at }

unfoldable pub same_authorization : SyntheticAuthorization → SyntheticAuthorization → Bool
same_authorization a b =
    same_environment a.environment b.environment
    && (a.epoch is b.epoch
        && (same_time a.valid_until b.valid_until
            && (a.max_executions == b.max_executions
                && (a.max_worst_case_jpy == b.max_worst_case_jpy
                    && (a.max_requests_per_minute == b.max_requests_per_minute
                        && a.worst_case_jpy_per_execution == b.worst_case_jpy_per_execution)))))

-- `sameRequest` of this store, which compares the request's id too.
unfoldable pub same_request_document : RequestIdentity → RequestIdentity → Bool
unfolding same_request
same_request_document a b = same_request a b && a.request_id is b.request_id

unfoldable pub prune_recent : EnvironmentDocument → ℕ → List Timestamp
prune_recent d now = keep (within_window now) d.recent_accepted_at

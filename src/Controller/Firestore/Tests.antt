-- ===== src/Controller/Firestore/Tests.antt =====
-- Runs of `FirestoreControlStore` on concrete documents.
use scribe_drop.Common.{
  false, none, ◌≤◌, ◌≡◌, ◌≢◌, refl, String, Bool, true, [], ◌∷◌, Option, none, some, arith, length,
}
use scribe_drop.Common.Assoc.{lookup, put, values}
use scribe_drop.Common.Texts.{text_length, all_codes, starts_with, drop_characters}
use scribe_drop.Controller.Contracts.{Environment, Action}
use scribe_drop.Controller.Record.{written_at, at, ControlRecord, ControlState}
use scribe_drop.Controller.Store.{
  SyntheticAuthorization, RequestIdentity, AdmitCreateInput, ClaimRequestInput, sum_reserved,
  active_count,
}
use scribe_drop.Controller.Store.{
  admit_create as memory_admit_create, claim_request as memory_claim_request,
  compare_and_set as memory_compare_and_set, get as memory_get, list_unclean as memory_list_unclean,
}
use scribe_drop.Controller.Firestore.Documents.{
  EnvironmentDocument, is_utc, earlier, all_utc, valid_admission, valid_claim, valid_record,
  is_opaque_handle, is_ulid, is_job_id, is_bounded, record_document, valid_environment,
  valid_authorization, active_binding_matches, within_authorization,
}
use scribe_drop.Controller.Firestore.Database.{
  Database, Answer, fresh_document, create_firestore_environment_document,
}
use scribe_drop.Controller.Firestore.Admit.{admit_create}
use scribe_drop.Controller.Firestore.Claim.{claim_request}
use scribe_drop.Controller.Firestore.Replace.{compare_and_set}
use scribe_drop.Controller.Firestore.Read.{get, list_unclean}
use scribe_drop.Controller.Firestore.Consistent.{Consistent, Refines, in_memory, records_of}
use scribe_drop.Controller.Firestore.Admission.{admit_create-Refines}
use scribe_drop.Controller.Firestore.Claiming.{claim_request-Claimed}
use scribe_drop.Controller.Firestore.Claiming.Written.{Claimed}
use scribe_drop.Controller.Firestore.Replacing.{ReplacedAlike, compare_and_set-ReplacedAlike}
use scribe_drop.Controller.Firestore.Reading.{reads_alike}
use scribe_drop.Controller.Firestore.Reachable.{Reachable, Reachable-Consistent, empty_but}
use scribe_drop.Controller.Firestore.Limits.{reachable_limits, cleaned_stays}

abbrev any_text : String → Bool
any_text s = true

abbrev authorization : SyntheticAuthorization
authorization = record {
  environment = Environment.staging;
  epoch = "epoch";
  valid_until = at 1000000;
  max_executions = 2;
  max_worst_case_jpy = 500;
  max_requests_per_minute = 10;
  worst_case_jpy_per_execution = 200;
}

abbrev authorizations : Environment → SyntheticAuthorization
authorizations e = authorization

abbrev handle : String
handle = "AAAAAAAAAAAAAAAAAAAAAAAAAAAAAAAAAAAAAAAAAAA"

abbrev created : RequestIdentity
created = record {
  request_id = "01ARZ3NDEKTSV4RRFFQ69G5FAV";
  digest = "BBBBBBBBBBBBBBBBBBBBBBBBBBBBBBBBBBBBBBBBBBB";
  environment = Environment.staging;
  execution_handle = handle;
  action = Action.create;
}

abbrev admission : AdmitCreateInput
admission = record {
  identity = created;
  job_id = "sd-stg-0123456789abcdef0123456789abcd";
  now = at 1000;
  provisioning_deadline = at 2000;
  record_expires_at = at 9000;
}

abbrev claim : ClaimRequestInput
claim = record {
  identity = record created { request_id = "01BX5ZZKBKACTAV9WEVGEMMVRZ"; action = Action.observe };
  expected_version = 1;
  now = at 3000;
}

abbrev environments : Environment → Option EnvironmentDocument
environments Environment.staging = some (fresh_document authorization (at 500))
environments Environment.production = none

created_document :
    create_firestore_environment_document authorization (at 500)
    ≡ some (fresh_document authorization (at 500))
unfolding is_utc earlier all_utc create_firestore_environment_document valid_authorization
    valid_environment is_bounded text_length active_binding_matches within_authorization
created_document = refl

reached : Reachable any_text authorizations Environment.staging 500 (empty_but environments)
reached =
    Reachable.fresh 500 environments (fresh_document authorization (at 500)) refl created_document
      refl

abbrev admitted : Database
unfolding admit_create
admitted = (admit_create any_text authorization (empty_but environments) admission).0

admitted_reached : Reachable any_text authorizations Environment.staging 1000 admitted
unfolding admitted
admitted_reached = Reachable.admitted admission 1000 9000 reached refl (omega arith) refl

admission_valid : valid_admission admission ≡ true
unfolding is_utc earlier all_utc valid_admission is_opaque_handle is_ulid is_job_id text_length
    all_codes starts_with drop_characters
admission_valid = refl

claim_valid : valid_claim claim ≡ true
unfolding is_utc earlier all_utc valid_claim is_opaque_handle is_ulid text_length all_codes
claim_valid = refl

admit_create-Refines_example :
    Refines any_text authorizations Environment.staging 1000
      (admit_create any_text authorization (empty_but environments) admission)
      (memory_admit_create (in_memory authorizations (empty_but environments)) admission)
admit_create-Refines_example =
    admit_create-Refines any_text authorizations admission 500 1000 9000 (empty_but environments)
      (Reachable-Consistent any_text authorizations Environment.staging 500 (empty_but environments)
        reached)
      admission_valid refl (omega arith) refl

-- An expiry without milliseconds is admitted, and then the record cannot be read.
abbrev without_milliseconds : AdmitCreateInput
without_milliseconds = record admission {
  record_expires_at = written_at 9000 true "1970-01-01T00:00:09Z";
}

unreadable :
    get any_text authorization
      (admit_create any_text authorization (empty_but environments) without_milliseconds).0
      handle
    ≡ Answer.thrown
unfolding admit_create get is_utc earlier all_utc text_length all_codes starts_with drop_characters
    lookup put
unreadable = refl

claim_request-Claimed_example :
    Claimed any_text authorizations claim 3000 admitted
      (claim_request any_text authorization admitted claim)
      (memory_claim_request (in_memory authorizations admitted) claim)
claim_request-Claimed_example =
    claim_request-Claimed any_text authorizations claim 1000 3000 admitted
      (Reachable-Consistent any_text authorizations Environment.staging 1000 admitted
        admitted_reached)
      claim_valid refl (omega arith)

abbrev record_admitted : ControlRecord
record_admitted = record {
  bootstrap_request_id = created.request_id;
  environment = Environment.staging;
  execution_handle = handle;
  job_id = admission.job_id;
  state = ControlState.create_intent;
  version = 1;
  create_attempts = 0;
  run_intent = false;
  cancel_intent = false;
  cleanup_intent = false;
  job = none;
  execution = none;
  operation_ref = none;
  error_code = none;
  reserved_worst_case_jpy = 200;
  created_at = at 1000;
  updated_at = at 1000;
  provisioning_deadline = at 2000;
  expires_at = at 9000;
}

abbrev record_cleaned : ControlRecord
record_cleaned = record record_admitted {
  state = ControlState.cleaned;
  version = 2;
  updated_at = at 4000;
}

record_valid : valid_record any_text record_cleaned ≡ true
unfolding is_utc earlier all_utc valid_record is_opaque_handle is_ulid is_job_id text_length
    all_codes starts_with drop_characters
record_valid = refl

compare_and_set-ReplacedAlike_example :
    ReplacedAlike any_text authorizations record_cleaned 1000 admitted
      (compare_and_set any_text authorization admitted 1 record_cleaned)
      (memory_compare_and_set (in_memory authorizations admitted) 1 record_cleaned)
compare_and_set-ReplacedAlike_example =
    compare_and_set-ReplacedAlike any_text authorizations 1 record_cleaned 1000 admitted
      (Reachable-Consistent any_text authorizations Environment.staging 1000 admitted
        admitted_reached)
      record_valid

handle_valid : is_opaque_handle handle ≡ true
unfolding is_opaque_handle text_length all_codes
handle_valid = refl

reads_alike_example :
    (list_unclean any_text authorization admitted Environment.staging
      ≡ Answer.answered
          (memory_list_unclean (in_memory authorizations admitted) Environment.staging))
    × (get any_text authorization admitted handle
        ≡ Answer.answered (memory_get (in_memory authorizations admitted) handle))
reads_alike_example =
    reads_alike any_text authorizations Environment.staging 1000 admitted handle
      (Reachable-Consistent any_text authorizations Environment.staging 1000 admitted
        admitted_reached)
      handle_valid

Reachable-Consistent_example : Consistent any_text authorizations Environment.staging 1000 admitted
Reachable-Consistent_example =
    Reachable-Consistent any_text authorizations Environment.staging 1000 admitted admitted_reached

reachable_limits_example :
    (sum_reserved (records_of (values admitted.executions)) ≤ 500)
    × (length (records_of (values admitted.executions)) ≤ 2)
    × (active_count (records_of (values admitted.executions)) ≤ 1)
reachable_limits_example =
    reachable_limits any_text authorizations Environment.staging 1000 admitted admitted_reached

abbrev cleaned_database : Database
cleaned_database = record (empty_but environments) {
  executions = (handle, record_document record_cleaned) ∷ [];
}

abbrev record_revived : ControlRecord
record_revived = record record_admitted { version = 3; updated_at = at 5000 }

cleaned_found : lookup handle cleaned_database.executions ≡ some (record_document record_cleaned)
unfolding lookup
cleaned_found = refl

cleaned_stays_example :
    ((compare_and_set any_text authorization cleaned_database 2 record_revived).0
      ≡ cleaned_database)
    × ((compare_and_set any_text authorization cleaned_database 2 record_revived).1
        ≢ Answer.answered true)
cleaned_stays_example =
    cleaned_stays any_text authorization cleaned_database 2 record_revived
      (record_document record_cleaned) cleaned_found refl

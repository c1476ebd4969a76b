-- ===== src/Controller/Record.antt =====
-- The record that apps/gpu-controller/src/control-store.ts keeps of an execution, and the changes that
-- apps/gpu-controller/src/controller-service.ts makes to it.
use scribe_drop.Common.{ℕ, ◌+◌, String, Bool, true, false, Option, none, some, ltb, leb, ◌==◌, ◌is◌}
use scribe_drop.Controller.Contracts.{Environment, ErrorCode}
use scribe_drop.Controller.Provider.{ProviderJob, ProviderExecution}

-- A time text: the one that `toISOString` writes for so many milliseconds since 1970; another one that
-- `Date.parse` reads as so many, with whether `utcDateTimeSchema` accepts it; or one that it does not
-- read.
pub data Timestamp : Type 0 where
  at : ℕ → Timestamp
  written_at : ℕ → Bool → String → Timestamp
  unparsable : String → Timestamp

-- `Date.parse`.
abbrev pub parse : Timestamp → Option ℕ
parse (at t) = some t
parse (written_at t utc text) = some t
parse (unparsable text) = none

pub data ControlState : Type 0 where
  create_intent create_unknown job_pending job_ready run_intent execution_pending : ControlState
  running succeeded failed cancel_pending cancelled cleanup_pending cleaned : ControlState

pub record ControlRecord : Type 0 where
  pub bootstrap_request_id : String
  pub environment : Environment
  pub execution_handle : String
  pub job_id : String
  pub state : ControlState
  pub version : ℕ
  pub create_attempts : ℕ
  pub run_intent : Bool
  pub cancel_intent : Bool
  pub cleanup_intent : Bool
  pub job : Option ProviderJob
  pub execution : Option ProviderExecution
  pub operation_ref : Option String
  pub error_code : Option ErrorCode
  pub reserved_worst_case_jpy : ℕ
  pub created_at : Timestamp
  pub updated_at : Timestamp
  pub provisioning_deadline : Timestamp
  pub expires_at : Timestamp

-- `MutableRecordChanges`: a field that is left out is `none`.
pub record Changes : Type 0 where
  pub state : Option ControlState
  pub create_attempts : Option ℕ
  pub run_intent : Option Bool
  pub cancel_intent : Option Bool
  pub cleanup_intent : Option Bool
  pub job : Option (Option ProviderJob)
  pub execution : Option (Option ProviderExecution)
  pub operation_ref : Option (Option String)
  pub error_code : Option (Option ErrorCode)

abbrev pub no_changes : Changes
no_changes = record {
  state = none;
  create_attempts = none;
  run_intent = none;
  cancel_intent = none;
  cleanup_intent = none;
  job = none;
  execution = none;
  operation_ref = none;
  error_code = none;
}

abbrev pub or_else {ℓ} : {A : Type ℓ} → Option A → A → A
or_else none a = a
or_else (some b) a = b

-- `{ ...record, ...changes, version: record.version + 1, updatedAt: now }`.
abbrev pub apply_changes : ControlRecord → Changes → ℕ → ControlRecord
apply_changes r c now = record r {
  state = or_else c.state r.state;
  version = r.version + 1;
  create_attempts = or_else c.create_attempts r.create_attempts;
  run_intent = or_else c.run_intent r.run_intent;
  cancel_intent = or_else c.cancel_intent r.cancel_intent;
  cleanup_intent = or_else c.cleanup_intent r.cleanup_intent;
  job = or_else c.job r.job;
  execution = or_else c.execution r.execution;
  operation_ref = or_else c.operation_ref r.operation_ref;
  error_code = or_else c.error_code r.error_code;
  updated_at = at now;
}

abbrev pub is_cleaned : ControlState → Bool
is_cleaned ControlState.cleaned = true
is_cleaned _ = false

-- `Date.parse(a) < now` and `Date.parse(a) <= now`, false where it is not a number.
abbrev pub before : Timestamp → ℕ → Bool
before (at t) now = ltb t now
before (written_at t utc text) now = ltb t now
before (unparsable text) now = false

abbrev pub not_after : Timestamp → ℕ → Bool
not_after (at t) now = leb t now
not_after (written_at t utc text) now = leb t now
not_after (unparsable text) now = false

-- `===` on two time texts.
abbrev pub same_time : Timestamp → Timestamp → Bool
same_time (at a) (at b) = a == b
same_time (written_at a u s) (written_at b v t) = s is t
same_time (unparsable s) (unparsable t) = s is t
same_time _ _ = false

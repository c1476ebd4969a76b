-- ===== src/Runtime/Record.antt =====
-- The records of apps/orchestrator/src/cloud-run-runtime-store.ts.
use scribe_drop.Common.{ℕ, suc, String, Bool, true, false, Option, none, some, leb}
use scribe_drop.Controller.Contracts.{Environment}
use scribe_drop.Controller.Record.{Timestamp, at, written_at}

pub data AttemptStatus : Type 0 where
  pending_bootstrap running terminal_reported : AttemptStatus

-- The options, which nothing here reads, are left out.
pub record RuntimeAttemptContext : Type 0 where
  pub environment : Environment
  pub execution_handle : String
  pub job_id : String
  pub attempt_id : String
  pub owner_hash : String
  pub source_etag : String
  pub source_key : String
  pub source_size_bytes : ℕ
  pub cancel_requested : Bool
  pub status : AttemptStatus

-- `lastSequence` is `none` where the source has -1.
pub record RuntimeBootstrapRecord : Type 0 where
  pub bootstrap_request_id : String
  pub request_digest : String
  pub execution_handle : String
  pub execution_name : String
  pub job_name : String
  pub public_key : String
  pub public_key_digest : String
  pub challenge_id : String
  pub challenge_hash : String
  pub challenge_expires_at : Timestamp
  pub session_id : Option String
  pub session_token_hash : Option String
  pub session_issued_at : Option Timestamp
  pub session_expires_at : Option Timestamp
  pub claim_digest : Option String
  pub last_sequence : Option ℕ
  pub revoked_at : Option Timestamp
  pub terminal_digest : Option String

pub data EventKind : Type 0 where
  ack heartbeat terminal : EventKind

abbrev pub same_kind : EventKind → EventKind → Bool
same_kind EventKind.ack EventKind.ack = true
same_kind EventKind.heartbeat EventKind.heartbeat = true
same_kind EventKind.terminal EventKind.terminal = true
same_kind _ _ = false

abbrev pub is_pending : AttemptStatus → Bool
is_pending AttemptStatus.pending_bootstrap = true
is_pending _ = false

-- `lastSequence + 1`.
abbrev pub next_sequence : Option ℕ → ℕ
next_sequence none = 0
next_sequence (some n) = suc n

-- `Date.parse(a) <= Date.parse(b)`, false where one is not a number.
abbrev pub not_later : Timestamp → Timestamp → Bool
not_later (at a) (at b) = leb a b
not_later (at a) (written_at b utc text) = leb a b
not_later (written_at a utc text) (at b) = leb a b
not_later (written_at a u s) (written_at b v t) = leb a b
not_later _ _ = false

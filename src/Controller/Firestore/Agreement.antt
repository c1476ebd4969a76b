-- ===== src/Controller/Firestore/Agreement.antt =====
-- What `FirestoreControlStore` of apps/gpu-controller/src/firestore-control-store.ts reads of consistent
-- documents, and what the store in memory of apps/gpu-controller/src/control-store.ts reads of the same.
use text.Mathlib.TextEquality.{eq_iff}
use mathlib.Core.Path.{subst}
use scribe_drop.Common.{
  Bool-cases, inl, inr, ◌++◌, ℕ, ◌≤◌, ◌≡◌, refl, sym, ap, ◌∙◌, String, Bool, true, ◌&&◌, List, [],
  ◌∷◌, Option, none, some, arith, length, keep, All, is_some, if◌then◌else◌, leb, is_iff,
}
use scribe_drop.Common.Assoc.{
  lookup, values, on_values, on_some, lookup-on_values, put, values-put_new,
}
use scribe_drop.Common.Filed.{lookup-All, lookup-Filed}
use scribe_drop.Controller.Contracts.{Environment, same_environment, same_environment_sound}
use scribe_drop.Controller.Record.{Timestamp, at, written_at, unparsable, ControlRecord, same_time}
use scribe_drop.Controller.Store.{
  SyntheticAuthorization, within_window, existing, over_budget, is_rate_limited, active_count,
  remembered_record, same_request, RequestIdentity,
}
use scribe_drop.Controller.Firestore.Documents.{
  EnvironmentDocument, RequestDocument, ExecutionDocument, valid_environment, date_of,
  valid_execution_document, parse_record_document, same_authorization, prune_recent,
  active_binding_matches,
}
use scribe_drop.Controller.Firestore.Database.{Database, read_environment, is_exhausted, is_limited}
use scribe_drop.Controller.Firestore.Growth.{keep-append, accepted_times-append}
use scribe_drop.Controller.Firestore.Consistent.{
  Consistent, record_of, handle_of, request_id_of, remembered_of, in_memory, records_of,
  accepted_times, unclean_handles, active_list, execution_fits, request_fits,
}

pub same_environment_refl : (e : Environment) → same_environment e e ≡ true
same_environment_refl Environment.staging = refl
same_environment_refl Environment.production = refl

pub same_time_refl : (t : Timestamp) → same_time t t ≡ true
same_time_refl (at t) = ground arith
same_time_refl (written_at t utc text) = (eq_iff text text).1 refl
same_time_refl (unparsable text) = (eq_iff text text).1 refl

-- A text of `toISOString` is the text of its `Date`.
pub same_time-date_of :
    (t : Timestamp) (n : ℕ) → t ≡ at n → same_time (date_of (date_of t)) t ≡ true
same_time-date_of t n e =
    subst (λ s. same_time (date_of (date_of s)) s ≡ true) (sym e) (same_time_refl (at n))

-- So is a text that equals one that a `Date` has written.
pub same_time-kept :
    (d a b : Timestamp)
    → same_time a b ≡ true
    → same_time (date_of d) b ≡ true
    → same_time (date_of (date_of a)) a ≡ true
same_time-kept d (at s) b h k = same_time_refl (at s)
same_time-kept d (unparsable s) b h k = same_time_refl (unparsable s)
same_time-kept d (written_at s v p) (at t) h k = absurd (cc)
same_time-kept d (written_at s v p) (unparsable t) h k = absurd (cc)
same_time-kept (at r) (written_at s v p) (written_at t w q) h k = absurd (cc)
same_time-kept (written_at r x o) (written_at s v p) (written_at t w q) h k = absurd (cc)
same_time-kept (unparsable r) (written_at s v p) (written_at t w q) h k = absurd (cc)

same_authorization_refl : (a : SyntheticAuthorization) → same_authorization a a ≡ true
unfolding same_authorization
same_authorization_refl a = ground (
  arith,
  same_environment_refl a.environment,
  same_time_refl a.valid_until,
  eq_iff a.epoch a.epoch,
)

-- A window that ends later keeps what it keeps of an earlier one.
pub keep-keep_window :
    (last now : ℕ) (ts : List Timestamp)
    → last ≤ now
    → keep (within_window now) (keep (within_window last) ts) ≡ keep (within_window now) ts
keep-keep_window last now [] le = refl
keep-keep_window last now (at t ∷ ts) le = ground (arith, keep-keep_window last now ts le)
keep-keep_window last now (written_at t utc text ∷ ts) le =
    ground (arith, keep-keep_window last now ts le)
keep-keep_window last now (unparsable text ∷ ts) le = keep-keep_window last now ts le

pub recent_later :
    (last now : ℕ) (ts us : List Timestamp)
    → last ≤ now
    → keep (within_window last) ts ≡ keep (within_window last) us
    → keep (within_window now) ts ≡ keep (within_window now) us
recent_later last now ts us le e =
    sym (keep-keep_window last now ts le)
    ∙ ap (keep (within_window now)) e
    ∙ keep-keep_window last now us le

-- The records in memory, of documents that are all of one environment.
existing_records :
    (u : String → Bool) (e : Environment) (m : List (String × ExecutionDocument))
    → All (λ x. execution_fits u e x ≡ true) (values m)
    → keep (λ r. same_environment r.environment e) (values (on_values record_of m))
      ≡ records_of (values m)
existing_records u e [] a = refl
existing_records u e ((k, x) ∷ m) (p, a) = ground (arith, existing_records u e m a)

pub length-records_of : (xs : List ExecutionDocument) → length (records_of xs) ≡ length xs
length-records_of [] = refl
length-records_of (x ∷ xs) = omega (arith, length-records_of xs)

pub active_count-records_of :
    (xs : List ExecutionDocument) → active_count (records_of xs) ≡ length (unclean_handles xs)
active_count-records_of [] = refl
active_count-records_of (x ∷ xs) = ground (arith, active_count-records_of xs)

-- The requests in memory that count against the rate are the recent ones.
counted_requests :
    (e : Environment) (now : ℕ) (x : List (String × ExecutionDocument))
    (m : List (String × RequestDocument))
    → All (λ q. request_fits e x q ≡ true) (values m)
    → length (
        keep
          (λ q. same_environment q.identity.environment e && within_window now q.accepted_at)
          (values (on_values remembered_of m)))
      ≡ length (keep (within_window now) (accepted_times (values m)))
counted_requests e now x [] a = refl
counted_requests e now x ((k, q) ∷ m) (p, a) = ground (arith, counted_requests e now x m a)

pub active_bound :
    (d : EnvironmentDocument)
    → valid_environment d ≡ true
    → (length (active_list d.active_execution_handle) ≡ d.active_executions)
      × (is_some d.active_execution_handle ≡ leb 1 d.active_executions)
unfolding valid_environment active_binding_matches
active_bound d h = ground arith

module _ (u : String → Bool) (a : Environment → SyntheticAuthorization) (e : Environment) (last : ℕ)
    (db : Database) (c : Consistent u a e last db) where
  pub reads_environment : read_environment db e ≡ some c.document
  unfolding read_environment
  reads_environment = rw (c.found, read_environment) (rw c.fits refl)

  pub reads_authorized : same_authorization c.document.authorization (a e) ≡ true
  reads_authorized = rw c.authorized (same_authorization_refl (a e))

  -- What stands under a handle is a record of the environment.
  pub found_execution :
      (k : String) (x : ExecutionDocument)
      → lookup k db.executions ≡ some x
      → (parse_record_document u x k ≡ some x.control_record)
        × (valid_execution_document u x ≡ true)
        × (x.control_record.environment ≡ e)
        × (x.control_record.execution_handle ≡ k)
  unfolding parse_record_document
  found_execution k x h =
      let own = lookup-Filed handle_of k x db.executions c.executions_filed h in
      let fit =
        lookup-All (λ x. execution_fits u e x ≡ true) k x db.executions c.executions_fit h in
      (
        ground (arith, eq_iff x.control_record.execution_handle k),
        ground arith,
        same_environment_sound x.control_record.environment e (ground arith),
        own,
      )

  pub found_request :
      (k : String) (q : RequestDocument)
      → lookup k db.requests ≡ some q
      → (request_fits e db.executions q ≡ true) × (q.identity.request_id ≡ k)
  found_request k q h = (
    lookup-All (λ q. request_fits e db.executions q ≡ true) k q db.requests c.requests_fit h,
    lookup-Filed request_id_of k q db.requests c.requests_filed h,
  )

  existing-in_memory : existing e (in_memory a db) ≡ records_of (values db.executions)
  unfolding existing
  existing-in_memory = existing_records u e db.executions c.executions_fit

  pub exhausted_alike :
      (now : ℕ) → is_exhausted c.document now ≡ over_budget (a e) (existing e (in_memory a db)) now
  unfolding is_exhausted over_budget
  exhausted_alike now =
      let (bound, some_bound) = active_bound c.document c.fits in
      let handles = ap length c.active in
      rw (existing-in_memory, sym c.authorized)
        (ground (
          arith,
          length-records_of (values db.executions),
          active_count-records_of (values db.executions),
          c.count,
          c.cost,
        ))

  pub limited_alike :
      (now : ℕ)
      → last ≤ now
      → is_limited c.document now
        ≡ is_rate_limited (in_memory a db) e now (a e).max_requests_per_minute
  unfolding is_limited is_rate_limited prune_recent
  limited_alike now le =
      let same = ap length (
        recent_later last now c.document.recent_accepted_at (accepted_times (values db.requests)) le
          c.recent) in
      let counted = counted_requests e now db.executions db.requests c.requests_fit in
      let most = ap (λ s. s.max_requests_per_minute) c.authorized in
      rw (counted, sym same, sym c.authorized) refl

  pub names_environment : same_environment c.document.authorization.environment e ≡ true
  names_environment = rw (ap (λ s. s.environment) c.authorized ∙ c.own) (same_environment_refl e)

  -- A request that is accepted comes last in both.
  pub recent_grows :
      (now : ℕ) (k : String) (q : RequestDocument)
      → last ≤ now
      → lookup k db.requests ≡ none
      → keep (within_window now) (prune_recent c.document now ++ (q.accepted_at ∷ []))
        ≡ keep (within_window now) (accepted_times (values (put k q db.requests)))
  unfolding prune_recent
  recent_grows now k q le missing =
      let old = accepted_times (values db.requests) in
      let recent = c.document.recent_accepted_at in
      rw
        (
          values-put_new k q db.requests missing,
          accepted_times-append (values db.requests) (q ∷ []),
          keep-append (within_window now) (keep (within_window now) recent) (q.accepted_at ∷ []),
          keep-append (within_window now) old (q.accepted_at ∷ []),
          keep-keep_window now now recent (omega arith),
          recent_later last now recent old le c.recent,
        )
        refl

  -- What a remembered request answers with.
  abbrev pub known_record : RequestDocument → RequestIdentity → Option ControlRecord
  known_record q identity =
      if same_request q.identity identity
      then on_some record_of (lookup identity.execution_handle db.executions)
      else none

  pub same_request_handle :
      (q identity : RequestIdentity)
      → same_request q identity ≡ true
      → q.execution_handle ≡ identity.execution_handle
  unfolding same_request
  same_request_handle q identity h =
      (is_iff q.execution_handle identity.execution_handle).0 (ground arith)

  pub unremembered :
      (identity : RequestIdentity)
      → lookup identity.request_id db.requests ≡ none
      → remembered_record (in_memory a db) identity ≡ none
  unfolding remembered_record
  unremembered identity h =
      rw (lookup-on_values remembered_of identity.request_id db.requests, h, remembered_record) refl

  pub remembered_alike :
      (identity : RequestIdentity) (q : RequestDocument)
      → lookup identity.request_id db.requests ≡ some q
      → remembered_record (in_memory a db) identity ≡ some (known_record q identity)
  unfolding remembered_record
  remembered_alike identity q h =
      let found =
        lookup-on_values remembered_of identity.request_id db.requests
        ∙ ap (on_some remembered_of) h in
      let records = lookup-on_values record_of q.identity.execution_handle db.executions in
      elim (Bool-cases (same_request q.identity identity)) [
        | inr other ↦ ground (arith, found, records)
        | inl same ↦ ground (arith, found, records, same_request_handle q.identity identity same)
      ]

  -- Documents that agree keep agreeing as time passes.
  pub Consistent-later : (now : ℕ) → last ≤ now → Consistent u a e now db
  Consistent-later now le = record {
    document = c.document;
    own = c.own;
    found = c.found;
    authorized = c.authorized;
    fits = c.fits;
    executions_fit = c.executions_fit;
    requests_fit = c.requests_fit;
    executions_filed = c.executions_filed;
    requests_filed = c.requests_filed;
    count = c.count;
    cost = c.cost;
    active = c.active;
    recent =
        recent_later last now c.document.recent_accepted_at (accepted_times (values db.requests)) le
          c.recent;
  }

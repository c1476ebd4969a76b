-- ===== src/Controller/Store/Results.antt =====
-- What can be read in the store of apps/gpu-controller/src/control-store.ts behind an admission and
-- behind a replacement, field by field.
use scribe_drop.Common.{
  ℕ, ◌+◌, ◌≤◌, ◌≡◌, ap, ◌∙◌, ◌⊎◌, inl, inr, String, false, none, some, arith, ◌is◌, is_iff, List,
  Bool, length, if◌then◌else◌, true,
}
use scribe_drop.Common.Assoc.{lookup, lookup-put}
use scribe_drop.Controller.Contracts.{same_environment}
use scribe_drop.Controller.Record.{ControlState, ControlRecord, parse, before, same_time}
use scribe_drop.Controller.Store.{
  ControlStore, SyntheticAuthorization, AdmitCreateInput, AdmitCreateResult, admit_create,
  over_budget, existing, new_record, active_count, sum_reserved, same_origin, compare_and_set, get,
}
use scribe_drop.Controller.Store.Outcomes.{
  accepted_of, authorization_of, Admission, admit_create-Admission, Replaced,
  compare_and_set-Replaced,
}

-- The record that an admission makes, at its first version and without any intent, job or execution.
abbrev pub fresh_record : AdmitCreateInput → ℕ → ControlRecord
fresh_record i cost = record {
  bootstrap_request_id = i.identity.request_id;
  environment = i.identity.environment;
  execution_handle = i.identity.execution_handle;
  job_id = i.job_id;
  state = ControlState.create_intent;
  version = 1;
  create_attempts = 0;
  run_intent = false;
  cancel_intent = false;
  cleanup_intent = false;
  job = none;
  execution = none;
  operation_ref = none;
  error_code = none;
  reserved_worst_case_jpy = cost;
  created_at = i.now;
  updated_at = i.now;
  provisioning_deadline = i.provisioning_deadline;
  expires_at = i.record_expires_at;
}

-- Room for one more execution beside the given records: the authorization is valid, none of them is in
-- use, and neither their number nor their reservations exceed it with the new one.
abbrev pub HasRoom : SyntheticAuthorization → List ControlRecord → ℕ → Type 0
HasRoom s rs now =
    (before s.valid_until now ≡ false)
    × (active_count rs ≡ 0)
    × (length rs + 1 ≤ s.max_executions)
    × (1 ≤ s.worst_case_jpy_per_execution)
    × (sum_reserved rs + s.worst_case_jpy_per_execution ≤ s.max_worst_case_jpy)

-- The outcomes of an admission, read under the handle `k`.
abbrev pub Admitted :
    ControlStore → AdmitCreateInput → String → ControlStore × AdmitCreateResult → Type 0
Admitted s i k (t, a) =
    let cost = (authorization_of s i).worst_case_jpy_per_execution in
    ((t ≡ s) × (accepted_of a ≡ none))
    ⊎ ((a ≡ AdmitCreateResult.accepted (fresh_record i cost))
        × (get s i.identity.execution_handle ≡ none)
        × ((now : ℕ) × (parse i.now ≡ some now)
            × HasRoom (authorization_of s i) (existing i.identity.environment s) now)
        × (get t k
            ≡ (if i.identity.execution_handle is k then some (fresh_record i cost) else get s k))
        × (t.authorizations ≡ s.authorizations))

room :
    (s : SyntheticAuthorization) (rs : List ControlRecord) (now : ℕ)
    → over_budget s rs now ≡ false
    → HasRoom s rs now
unfolding over_budget
room s rs now h = (ground arith, ground arith, ground arith, ground arith, ground arith)

admitted :
    (s : ControlStore) (i : AdmitCreateInput) (k : String) (o : ControlStore × AdmitCreateResult)
    → Admission s i o
    → Admitted s i k o
unfolding get new_record
admitted s i k (t, a) (inl kept) = inl kept
admitted s i k (t, a) (inr (ok, missing, same, stored, (now, time, within))) =
    let cost = (authorization_of s i).worst_case_jpy_per_execution in
    inr (
      ok,
      missing,
      (now, time, room (authorization_of s i) (existing i.identity.environment s) now within),
      ap (lookup k) stored
          ∙ lookup-put i.identity.execution_handle k (fresh_record i cost) s.records,
      same,
    )

-- An admission either leaves the store as it was and accepts nothing, or it accepts a record at version
-- 1, without any intent, under a handle that had none, and changes no other: at a readable time at which
-- the authorization is valid, no record of the environment is in use, and one more execution keeps
-- their number and their reservations within the authorization.
pub admit_create-Admitted :
    (s : ControlStore) (i : AdmitCreateInput) (k : String) → Admitted s i k (admit_create s i)
admit_create-Admitted s i k = admitted s i k (admit_create s i) (admit_create-Admission s i)

-- The outcomes of a replacement, read under the handle `k`.
abbrev pub Replacement : ControlStore → ℕ → ControlRecord → String → ControlStore × Bool → Type 0
Replacement s v n k (t, applied) =
    ((applied ≡ false) × (t ≡ s))
    ⊎ ((applied ≡ true)
        × ((x : ControlRecord) × (get s n.execution_handle ≡ some x)
            × (x.version ≡ v)
            × (n.version ≡ v + 1)
            × (same_environment n.environment x.environment ≡ true)
            × (n.bootstrap_request_id ≡ x.bootstrap_request_id)
            × (n.job_id ≡ x.job_id)
            × (same_time n.created_at x.created_at ≡ true)
            × (n.reserved_worst_case_jpy ≡ x.reserved_worst_case_jpy))
        × (get t k ≡ (if n.execution_handle is k then some n else get s k))
        × (t.authorizations ≡ s.authorizations)
        × (t.requests ≡ s.requests))

replacement :
    (s : ControlStore) (v : ℕ) (n : ControlRecord) (k : String) (o : ControlStore × Bool)
    → Replaced s v n o
    → Replacement s v n k o
unfolding get same_origin
replacement s v n k (t, b) (inl kept) = inl kept
replacement s v n k (t, b) (inr (ok, after, (x, found, old, next, origin))) =
    let request = is_iff n.bootstrap_request_id x.bootstrap_request_id in
    let job = is_iff n.job_id x.job_id in
    inr (
      ok,
      (
        x,
        found,
        old,
        next,
        ground arith,
        request.0 (ground arith),
        job.0 (ground arith),
        ground arith,
        ground arith,
      ),
      ap (λ u. lookup k u.records) after ∙ lookup-put n.execution_handle k n s.records,
      ap (λ u. u.authorizations) after,
      ap (λ u. u.requests) after,
    )

-- A replacement either leaves the store as it was and says so, or it puts the record in the place of a
-- stored one of the expected version, which is one less than its own, and changes no other; the two have
-- the same environment, bootstrap request, job, creation time and reservation.
pub compare_and_set-Replacement :
    (s : ControlStore) (v : ℕ) (n : ControlRecord) (k : String)
    → Replacement s v n k (compare_and_set s v n)
compare_and_set-Replacement s v n k =
    replacement s v n k (compare_and_set s v n) (compare_and_set-Replaced s v n)

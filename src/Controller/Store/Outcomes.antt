-- ===== src/Controller/Store/Outcomes.antt =====
-- What each operation of apps/gpu-controller/src/control-store.ts has done, by its result.
use scribe_drop.Common.{
  ℕ, ◌+◌, ◌≡◌, refl, ap, ◌⊎◌, inl, inr, Bool, true, false, Option, none, some, arith, ◌==◌, ◌&&◌,
  Option-cases, Bool-cases,
}
use scribe_drop.Common.Assoc.{lookup, put}
use scribe_drop.Controller.Contracts.{same_environment}
use scribe_drop.Controller.Record.{Timestamp, at, written_at, unparsable, parse, ControlRecord}
use scribe_drop.Controller.Store.{
  ControlStore, SyntheticAuthorization, AdmitCreateInput, AdmitCreateResult, ClaimRequestInput,
  ClaimRequestResult, remembered_record, new_record, over_budget, is_rate_limited, admit_at,
  admit_within, admit_create, claim_record, claim_request, same_origin, compare_and_set, existing,
}

-- The outcomes of a replacement.
abbrev pub Replaced : ControlStore → ℕ → ControlRecord → ControlStore × Bool → Type 0
Replaced s v n (s', applied) =
    ((applied ≡ false) × (s' ≡ s))
    ⊎ ((applied ≡ true)
        × (s' ≡ record s { records = put n.execution_handle n s.records })
        × ((current : ControlRecord) × (lookup n.execution_handle s.records ≡ some current)
            × (current.version ≡ v)
            × (n.version ≡ v + 1)
            × (same_origin n current ≡ true)))

-- A replacement either leaves the store as it was and says so, or it puts the record in the place of a
-- stored one of the expected version, which is one less than its own and has the same origin.
pub compare_and_set-Replaced :
    (s : ControlStore) (v : ℕ) (n : ControlRecord) → Replaced s v n (compare_and_set s v n)
unfolding compare_and_set
compare_and_set-Replaced s v n = go (lookup n.execution_handle s.records) refl
  where
    go :
        (o : Option ControlRecord)
        → lookup n.execution_handle s.records ≡ o
        → Replaced s v n (compare_and_set s v n)
    go none e = inl (ground arith, ground arith)
    go (some x) e = elim (Bool-cases (x.version == v && (n.version == v + 1 && same_origin n x))) [
      | inl ok ↦ inr (ground arith, ground arith, (x, e, ground arith, ground arith, ground arith))
      | inr stale ↦ inl (ground arith, ground arith)
    ]

abbrev pub authorization_of : ControlStore → AdmitCreateInput → SyntheticAuthorization
authorization_of s i = s.authorizations i.identity.environment

-- The record that an admission makes.
abbrev pub admitted_record : ControlStore → AdmitCreateInput → ControlRecord
admitted_record s i = new_record i (authorization_of s i).worst_case_jpy_per_execution

-- The record of an admission that was accepted.
abbrev pub accepted_of : AdmitCreateResult → Option ControlRecord
accepted_of (AdmitCreateResult.accepted x) = some x
accepted_of _ = none

-- The outcomes of an admission.
abbrev pub Admission : ControlStore → AdmitCreateInput → ControlStore × AdmitCreateResult → Type 0
Admission s i (s', a) =
    ((s' ≡ s) × (accepted_of a ≡ none))
    ⊎ ((a ≡ AdmitCreateResult.accepted (admitted_record s i))
        × (lookup i.identity.execution_handle s.records ≡ none)
        × (s'.authorizations ≡ s.authorizations)
        × (s'.records ≡ put i.identity.execution_handle (admitted_record s i) s.records)
        × ((now : ℕ) × (parse i.now ≡ some now)
            × (over_budget (authorization_of s i) (existing i.identity.environment s) now ≡ false)))

admit_at-Admission :
    (s : ControlStore) (i : AdmitCreateInput) (now : ℕ)
    → parse i.now ≡ some now
    → lookup i.identity.execution_handle s.records ≡ none
    → Admission s i (admit_at s i now)
unfolding admit_at
admit_at-Admission s i now e missing =
    elim (Bool-cases (over_budget (authorization_of s i) (existing i.identity.environment s) now)) [
      | inl over ↦ inl (ground arith, ground arith)
      | inr within ↦
          elim (Bool-cases (
            is_rate_limited s i.identity.environment now
              (authorization_of s i).max_requests_per_minute)) [
                | inl limited ↦ inl (ground arith, ground arith)
                | inr free ↦
                    inr (ground arith, missing, ground arith, ground arith, (now, e, within))
              ]
    ]

admit_within-Admission :
    (s : ControlStore) (i : AdmitCreateInput) (t : Timestamp)
    → i.now ≡ t
    → lookup i.identity.execution_handle s.records ≡ none
    → Admission s i (admit_within s i t)
unfolding admit_within
admit_within-Admission s i (unparsable text) e missing = inl (refl, refl)
admit_within-Admission s i (written_at now utc text) e missing =
    unfold admit_at in admit_at-Admission s i now (ap parse e) missing
admit_within-Admission s i (at now) e missing =
    unfold admit_at in admit_at-Admission s i now (ap parse e) missing

admit_unremembered :
    (s : ControlStore) (i : AdmitCreateInput)
    → remembered_record s i.identity ≡ none
    → Admission s i (admit_create s i)
unfolding admit_create
admit_unremembered s i e = elim (Option-cases (lookup i.identity.execution_handle s.records)) [
  | inr (x, found) ↦ rw (e, found, admit_create) (inl (refl, refl))
  | inl missing ↦
      elim (Bool-cases
        (same_environment (authorization_of s i).environment i.identity.environment)) [
          | inl ours ↦
              rw (e, missing, ours, admit_create)
                (rw missing at (admit_within-Admission s i i.now refl missing))
          | inr foreign ↦ rw (e, missing, foreign, admit_create) (inl (refl, refl))
        ]
]

-- An admission either leaves the store as it was and accepts nothing, or it accepts a new record at a
-- readable time at which the budget has room for it, and adds it under a handle that had none.
pub admit_create-Admission :
    (s : ControlStore) (i : AdmitCreateInput) → Admission s i (admit_create s i)
unfolding admit_create
admit_create-Admission s i = go (remembered_record s i.identity) refl
  where
    go :
        (o : Option (Option ControlRecord))
        → remembered_record s i.identity ≡ o
        → Admission s i (admit_create s i)
    go none e = admit_unremembered s i e
    go (some none) e = rw (e, admit_create) (inl (refl, refl))
    go (some (some x)) e = rw (e, admit_create) (inl (refl, refl))

-- A claim never changes a record, and is accepted on the stored record only.
abbrev pub Claim : ControlStore → ClaimRequestInput → ControlStore × ClaimRequestResult → Type 0
Claim s i (s', a) =
    (s'.records ≡ s.records)
    × (s'.authorizations ≡ s.authorizations)
    × ((x : ControlRecord)
        → a ≡ ClaimRequestResult.accepted x
        → lookup i.identity.execution_handle s.records ≡ some x)

claim_record-Claim :
    (s : ControlStore) (i : ClaimRequestInput) (x : ControlRecord) (t : Timestamp)
    → lookup i.identity.execution_handle s.records ≡ some x
    → Claim s i (claim_record s i x t)
unfolding claim_record
claim_record-Claim s i x (unparsable text) e = (ground arith, ground arith, (λ y h. ground arith))
claim_record-Claim s i x (written_at now utc text) e =
    (ground arith, ground arith, (λ y h. ground arith))
claim_record-Claim s i x (at now) e = (ground arith, ground arith, (λ y h. ground arith))

pub claim_request-Claim : (s : ControlStore) (i : ClaimRequestInput) → Claim s i (claim_request s i)
unfolding claim_request
claim_request-Claim s i = go (remembered_record s i.identity) refl
  where
    go :
        (o : Option (Option ControlRecord))
        → remembered_record s i.identity ≡ o
        → Claim s i (claim_request s i)
    go none e = elim (Option-cases (lookup i.identity.execution_handle s.records)) [
      | inl missing ↦ rw (e, missing, claim_request) (refl, refl, (λ y h. cc))
      | inr (x, found) ↦
          rw (e, found, claim_request) (rw found at (claim_record-Claim s i x i.now found))
    ]
    go (some none) e = rw (e, claim_request) (refl, refl, (λ y h. cc))
    go (some (some x)) e = rw (e, claim_request) (refl, refl, (λ y h. cc))

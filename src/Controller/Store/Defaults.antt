-- ===== src/Controller/Store/Defaults.antt =====
-- `defaultSyntheticAuthorizations` of apps/gpu-controller/src/control-store.ts.
use scribe_drop.Common.{
  ℕ, ◌≡◌, refl, inl, inr, true, List, Option, none, some, arith, String, Option-cases,
}
use scribe_drop.Common.Assoc.{lookup}
use scribe_drop.Controller.Contracts.{Environment}
use scribe_drop.Controller.Record.{Timestamp, at, written_at, unparsable, ControlRecord}
use scribe_drop.Controller.Store.Outcomes.{accepted_of, Admission, admit_create-Admission}
use scribe_drop.Controller.Store.{
  AdmitCreateResult, ClaimRequestResult, SyntheticAuthorization, RememberedRequest, ControlStore,
  AdmitCreateInput, ClaimRequestInput, existing, is_rate_limited, over_budget, remembered_record,
  admit_create, claim_record, claim_request,
}

unfoldable pub default_synthetic_authorizations : Environment → SyntheticAuthorization
default_synthetic_authorizations environment = record {
  environment = environment;
  epoch = "disabled";
  valid_until = at 0;
  max_executions = 0;
  max_worst_case_jpy = 0;
  max_requests_per_minute = 0;
  worst_case_jpy_per_execution = 0;
}

abbrev pub default_store :
    List (String × ControlRecord) → List (String × RememberedRequest) → ControlStore
default_store records requests = record {
  authorizations = default_synthetic_authorizations;
  records = records;
  requests = requests;
}

default_over_budget :
    (e : Environment) (rs : List ControlRecord) (now : ℕ)
    → over_budget (default_synthetic_authorizations e) rs now ≡ true
unfolding over_budget default_synthetic_authorizations
default_over_budget e rs now = ground arith

default_is_rate_limited :
    (s : ControlStore) (e f : Environment) (now : ℕ)
    → is_rate_limited s e now (default_synthetic_authorizations f).max_requests_per_minute ≡ true
unfolding is_rate_limited default_synthetic_authorizations
default_is_rate_limited s e f now = refl

closed_to_admission :
    (s : ControlStore) (i : AdmitCreateInput) (r : ControlStore × AdmitCreateResult)
    → s.authorizations ≡ default_synthetic_authorizations
    → Admission s i r
    → (r.0 ≡ s) × (accepted_of r.1 ≡ none)
closed_to_admission s i (t, a) e (inl kept) = kept
closed_to_admission s i (t, a) e (inr (_, _, _, _, (now, _, within))) =
    absurd
      (cc (default_over_budget i.identity.environment (existing i.identity.environment s) now, e))

abbrev pub claim_accepted_of : ClaimRequestResult → Option ControlRecord
claim_accepted_of (ClaimRequestResult.accepted x) = some x
claim_accepted_of _ = none

-- A claim that changes nothing and accepts nothing.
abbrev pub Refused : ControlStore → ControlStore × ClaimRequestResult → Type 0
Refused s (t, a) = (t ≡ s) × (claim_accepted_of a ≡ none)

closed_to_claim_record :
    (records : List (String × ControlRecord)) (requests : List (String × RememberedRequest))
    (j : ClaimRequestInput) (x : ControlRecord) (t : Timestamp)
    → Refused (default_store records requests) (claim_record (default_store records requests) j x t)
unfolding claim_record
closed_to_claim_record records requests j x (unparsable text) = (ground arith, ground arith)
closed_to_claim_record records requests j x (written_at now utc text) =
    let limited =
      default_is_rate_limited (default_store records requests) j.identity.environment
        j.identity.environment now in
    (ground (arith, limited), ground (arith, limited))
closed_to_claim_record records requests j x (at now) =
    let limited =
      default_is_rate_limited (default_store records requests) j.identity.environment
        j.identity.environment now in
    (ground (arith, limited), ground (arith, limited))

closed_to_claim :
    (records : List (String × ControlRecord)) (requests : List (String × RememberedRequest))
    (j : ClaimRequestInput)
    → Refused (default_store records requests) (claim_request (default_store records requests) j)
unfolding claim_request
closed_to_claim records requests j =
    go (remembered_record (default_store records requests) j.identity) refl
  where
    go :
        (o : Option (Option ControlRecord))
        → remembered_record (default_store records requests) j.identity ≡ o
        → Refused
            (default_store records requests)
            (claim_request (default_store records requests) j)
    go none e = elim (Option-cases (lookup j.identity.execution_handle records)) [
      | inl missing ↦ rw (e, missing, claim_request) (refl, refl)
      | inr (x, found) ↦
          rw (e, found, claim_request) (closed_to_claim_record records requests j x j.now)
    ]
    go (some none) e = rw (e, claim_request) (refl, refl)
    go (some (some x)) e = rw (e, claim_request) (refl, refl)

-- Under the default authorizations no admission and no claim changes the store, and none is answered as
-- accepted.
pub default_synthetic_authorizations-closed :
    (records : List (String × ControlRecord)) (requests : List (String × RememberedRequest))
    (i : AdmitCreateInput) (j : ClaimRequestInput)
    → ((admit_create (default_store records requests) i).0 ≡ default_store records requests)
      × (accepted_of (admit_create (default_store records requests) i).1 ≡ none)
      × ((claim_request (default_store records requests) j).0 ≡ default_store records requests)
      × (claim_accepted_of (claim_request (default_store records requests) j).1 ≡ none)
default_synthetic_authorizations-closed records requests i j =
    let (same, none_admitted) =
      closed_to_admission (default_store records requests) i
        (admit_create (default_store records requests) i) refl
        (admit_create-Admission (default_store records requests) i) in
    let (kept, none_claimed) = closed_to_claim records requests j in
    (same, none_admitted, kept, none_claimed)

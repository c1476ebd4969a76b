-- ===== src/Controller/Persistence.antt =====
-- What becomes of a stored record while the controller of apps/gpu-controller/src runs.
use mathlib.Core.Path.{subst}
use scribe_drop.Common.{
  ℕ, ◌+◌, ◌≤◌, ◌≡◌, ◌⊎◌, refl, ap, sym, ◌∙◌, inl, inr, String, Bool, true, none, some, arith, ◌is◌,
  is_iff, Bool-cases,
}
use scribe_drop.Common.Assoc.{lookup, put, lookup-put_same, lookup-put_other}
use scribe_drop.Controller.Contracts.{same_environment}
use scribe_drop.Controller.Record.{ControlRecord}
use scribe_drop.Controller.Store.{
  ControlStore, AdmitCreateInput, AdmitCreateResult, ClaimRequestInput, ClaimRequestResult,
  admit_create, claim_request, compare_and_set, same_origin, get,
}
use scribe_drop.Controller.Store.Outcomes.{
  Replaced, compare_and_set-Replaced, Admission, admit_create-Admission, admitted_record, Claim,
  claim_request-Claim,
}
use scribe_drop.Controller.Program.{Controller}
use scribe_drop.Controller.System.{System, Reach}
use scribe_drop.Controller.Stored.{Reach-keeps}

-- A record that came from `x`: it is `x` itself, or a later version of it with the same reservation and job.
abbrev pub Continues : ControlRecord → ControlRecord → Type 0
Continues x y =
    ((x ≡ y) ⊎ (x.version + 1 ≤ y.version))
    × (y.reserved_worst_case_jpy ≡ x.reserved_worst_case_jpy)
    × (y.job_id ≡ x.job_id)
    × (y.bootstrap_request_id ≡ x.bootstrap_request_id)

abbrev Holds : String → ControlRecord → ControlStore → Type 0
Holds h x s = (y : ControlRecord) × (lookup h s.records ≡ some y) × Continues x y

Continues-le : (x y : ControlRecord) → Continues x y → x.version ≤ y.version
Continues-le x y (inl e, _, _, _) = ground (arith, ap (λ r. r.version) e)
Continues-le x y (inr lt, _, _, _) = omega arith

-- What the fields say whose comparison allows a replacement.
pub same_origin_fields :
    (n y : ControlRecord)
    → same_origin n y ≡ true
    → (same_environment n.environment y.environment ≡ true)
      × (n.bootstrap_request_id ≡ y.bootstrap_request_id)
      × (n.job_id ≡ y.job_id)
      × (n.reserved_worst_case_jpy ≡ y.reserved_worst_case_jpy)
unfolding same_origin
same_origin_fields n y o =
    let request = is_iff n.bootstrap_request_id y.bootstrap_request_id in
    let job = is_iff n.job_id y.job_id in
    (ground arith, request.0 (ground arith), job.0 (ground arith), ground arith)

Continues-next :
    (x y n : ControlRecord) (v : ℕ)
    → Continues x y
    → y.version ≡ v
    → n.version ≡ v + 1
    → same_origin n y ≡ true
    → Continues x n
Continues-next x y n v (from, cost, job, request) e e' o =
    let (_, same_request, same_job, same_cost) = same_origin_fields n y o in
    (
      inr (omega (arith, Continues-le x y (from, cost, job, request))),
      same_cost ∙ cost,
      same_job ∙ job,
      same_request ∙ request,
    )

Holds-new :
    (h : String) (x : ControlRecord) (s t : ControlStore) (k : String) (n : ControlRecord)
    → t.records ≡ put k n s.records
    → lookup k s.records ≡ none
    → Holds h x s
    → Holds h x t
Holds-new h x s t k n e missing (y, found, c) = elim (Bool-cases (k is h)) [
  | inl same ↦ absurd (cc (missing, found, (is_iff k h).0 same))
  | inr other ↦ (y, ap (lookup h) e ∙ lookup-put_other k h n s.records other ∙ found, c)
]

Holds-set :
    (h : String) (x : ControlRecord) (s t : ControlStore) (v : ℕ) (n : ControlRecord) (a : Bool)
    → Replaced s v n (t, a)
    → Holds h x s
    → Holds h x t
Holds-set h x s t v n a (inl (_, e)) p = subst (Holds h x) (sym e) p
Holds-set h x s t v n a (inr (_, e, (z, found_z, ez, en, o))) (y, found, c) =
    elim (Bool-cases (n.execution_handle is h)) [
      | inl same ↦ (
        n,
        ap (λ u. lookup h u.records) e ∙ lookup-put_same n.execution_handle h n s.records same,
        Continues-next x z n v
            (subst (Continues x) (cc (found, found_z, (is_iff n.execution_handle h).0 same)) c) ez
            en o,
      )
      | inr other ↦ (
        y,
        ap (λ u. lookup h u.records) e
            ∙ lookup-put_other n.execution_handle h n s.records other
            ∙ found,
        c,
      )
    ]

Holds-admit :
    (h : String) (x : ControlRecord) (s : ControlStore) (i : AdmitCreateInput)
    (r : ControlStore × AdmitCreateResult)
    → Admission s i r
    → Holds h x s
    → Holds h x r.0
Holds-admit h x s i (t, a) (inl (e, _)) p = subst (Holds h x) (sym e) p
Holds-admit h x s i (t, a) (inr (_, missing, _, e, _)) p =
    Holds-new h x s t i.identity.execution_handle (admitted_record s i) e missing p

Holds-Claim :
    (h : String) (x : ControlRecord) (s : ControlStore) (i : ClaimRequestInput)
    (r : ControlStore × ClaimRequestResult)
    → Claim s i r
    → Holds h x s
    → Holds h x r.0
Holds-Claim h x s i (t, a) (e, _, _) (y, found, c) = (y, ap (lookup h) e ∙ found, c)

-- While the controller runs, whatever the interleaving of its requests and whatever the provider
-- answers, a stored record never disappears: under its handle stays the record itself or a version of
-- it with a greater number and the same reservation, job and bootstrap request.
pub records_persist :
    (k : Controller) (s t : System) (h : String) (x : ControlRecord)
    → get s.store h ≡ some x
    → Reach k s t
    → (y : ControlRecord) × (get t.store h ≡ some y) × Continues x y
unfolding get
records_persist k s t h x found reach =
    Reach-keeps (Holds h x)
      (λ u i p. Holds-admit h x u i (admit_create u i) (admit_create-Admission u i) p)
      (λ u i p. Holds-Claim h x u i (claim_request u i) (claim_request-Claim u i) p)
      (λ u v n p.
        Holds-set h x u (compare_and_set u v n).0 v n (compare_and_set u v n).1
          (compare_and_set-Replaced u v n) p)
      k s t reach (x, found, (inl refl, refl, refl, refl))

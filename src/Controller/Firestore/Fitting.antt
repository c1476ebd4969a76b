-- ===== src/Controller/Firestore/Fitting.antt =====
-- The documents that the transactions of apps/gpu-controller/src/firestore-control-store.ts write fit
-- their schemas.
use scribe_drop.Common.{
  ℕ, ◌+◌, ◌*◌, ◌≤◌, ◌<◌, ◌≡◌, refl, ap, leb, leb→le, ◌&&◌, Option, none, some, String, Bool, true,
  false, List, [], ◌∷◌, ◌++◌, arith, length, keep, length-append,
}
use scribe_drop.Controller.Record.{Timestamp, at, written_at, unparsable, parse, ControlRecord}
use scribe_drop.Controller.Store.{AdmitCreateInput, new_record, within_window}
use scribe_drop.Controller.Firestore.Documents.{
  EnvironmentDocument, valid_environment, valid_request, valid_record, valid_admission,
  valid_authorization, within_authorization, active_binding_matches, earlier, is_utc, all_utc,
  prune_recent, is_opaque_handle, all_of, below, date_of,
}
use scribe_drop.Controller.Firestore.Database.{
  is_exhausted, is_limited, request_document, admitted_environment, claimed_environment,
  released_environment,
}

below_trans : (s t v : Option ℕ) → below s t ≡ true → below t v ≡ true → below s v ≡ true
below_trans (some s) (some t) (some v) h k = ground arith
below_trans (some s) (some t) none h k = cc
below_trans (some s) none v h k = cc
below_trans none t v h k = cc

earlier_trans : (s t v : Timestamp) → earlier s t ≡ true → earlier t v ≡ true → earlier s v ≡ true
unfolding earlier
earlier_trans s t v h k = below_trans (parse s) (parse t) (parse v) h k

pub parse-date_of : (t : Timestamp) → parse (date_of t) ≡ parse t
parse-date_of (at t) = refl
parse-date_of (written_at t utc text) = refl
parse-date_of (unparsable text) = refl

-- A `Date` is as late as the text that it was made of.
pub earlier-date_of : (s t : Timestamp) → earlier s (date_of t) ≡ earlier s t
unfolding earlier
earlier-date_of s t = ap (below (parse s)) (parse-date_of t)

all_utc-keep :
    (p : Timestamp → Bool) (ts : List Timestamp) → all_utc ts ≡ true → all_utc (keep p ts) ≡ true
unfolding all_utc
all_utc-keep p [] h = refl
all_utc-keep p (t ∷ ts) h = ground (arith, all_utc-keep p ts)

all_utc-append :
    (ts : List Timestamp) (t : Timestamp)
    → is_utc t ≡ true
    → all_utc ts ≡ true
    → all_utc (ts ++ (t ∷ [])) ≡ true
unfolding all_utc
all_utc-append [] t utc h = ground arith
all_utc-append (s ∷ ts) t utc h = ground (arith, all_utc-append ts t utc)

-- The recent requests and one more, where the rate leaves room for it.
recent_fits :
    (d : EnvironmentDocument) (t : Timestamp) (now : ℕ)
    → is_utc t ≡ true
    → valid_environment d ≡ true
    → is_limited d now ≡ false
    → (all_utc (prune_recent d now ++ (t ∷ [])) ≡ true)
      × (length (prune_recent d now ++ (t ∷ [])) ≤ 120)
unfolding valid_environment valid_authorization is_limited prune_recent
recent_fits d t now utc fit free = (
  all_utc-append (keep (within_window now) d.recent_accepted_at) t utc
      (all_utc-keep (within_window now) d.recent_accepted_at (ground arith)),
  ground (arith, length-append (keep (within_window now) d.recent_accepted_at) (t ∷ [])),
)

-- What the environment's schema says, and builds on.
Fits : EnvironmentDocument → Type 0
Fits d =
    (valid_authorization d.authorization ≡ true)
    × (all_of is_opaque_handle d.active_execution_handle ≡ true)
    × (d.active_executions ≤ 1)
    × (all_utc d.recent_accepted_at ≡ true)
    × (length d.recent_accepted_at ≤ 120)
    × (d.reserved_executions ≤ 100)
    × (d.reserved_worst_case_jpy ≤ 10000000)
    × (is_utc d.updated_at ≡ true)
    × (active_binding_matches d ≡ true)
    × (within_authorization d ≡ true)

both : (a b : Bool) → (a && b) ≡ true → (a ≡ true) × (b ≡ true)
both true b h = (refl, h)
both false b h = absurd (cc)

valid_environment→Fits : (d : EnvironmentDocument) → valid_environment d ≡ true → Fits d
unfolding Fits valid_environment
valid_environment→Fits d h =
    let (a, h) = both (valid_authorization d.authorization) _ h in
    let (b, h) = both (all_of is_opaque_handle d.active_execution_handle) _ h in
    let (c, h) = both (leb d.active_executions 1) _ h in
    let (e, h) = both (all_utc d.recent_accepted_at) _ h in
    let (f, h) = both (leb (length d.recent_accepted_at) 120) _ h in
    let (g, h) = both (leb d.reserved_executions 100) _ h in
    let (i, h) = both (leb d.reserved_worst_case_jpy 10000000) _ h in
    let (j, h) = both (is_utc d.updated_at) _ h in
    let (k, h) = both (active_binding_matches d) _ h in
    (
      a,
      b,
      leb→le d.active_executions 1 c,
      e,
      leb→le (length d.recent_accepted_at) 120 f,
      leb→le d.reserved_executions 100 g,
      leb→le d.reserved_worst_case_jpy 10000000 i,
      j,
      k,
      h,
    )

Fits→valid_environment : (d : EnvironmentDocument) → Fits d → valid_environment d ≡ true
unfolding Fits valid_environment
Fits→valid_environment d (a, b, c, e, f, g, h, i, j, k) = rw (a, b, e, i, j, k) (ground arith)

pub at_most_one_active :
    (d : EnvironmentDocument) → valid_environment d ≡ true → d.active_executions ≤ 1
unfolding Fits
at_most_one_active d h = (valid_environment→Fits d h).2

-- The bounds of an authorization, with what its counts say of it.
pub bounds :
    (d : EnvironmentDocument)
    → valid_environment d ≡ true
    → (d.authorization.max_executions ≤ 100)
      × (d.authorization.max_worst_case_jpy ≤ 10000000)
      × (d.authorization.worst_case_jpy_per_execution ≤ 10000000)
      × (d.active_executions ≤ d.reserved_executions)
      × (d.reserved_executions ≤ d.authorization.max_executions)
      × (d.reserved_worst_case_jpy
          ≡ d.reserved_executions * d.authorization.worst_case_jpy_per_execution)
      × (d.reserved_worst_case_jpy ≤ d.authorization.max_worst_case_jpy)
unfolding Fits valid_authorization within_authorization
bounds d h = let (a, b, c, e, f, g, h, i, j, k) = valid_environment→Fits d h in ground arith

-- Where the budget has room.
room :
    (d : EnvironmentDocument) (now : ℕ)
    → is_exhausted d now ≡ false
    → (d.active_executions ≡ 0)
      × (1 ≤ d.authorization.worst_case_jpy_per_execution)
      × (d.reserved_executions < d.authorization.max_executions)
      × (d.reserved_worst_case_jpy + d.authorization.worst_case_jpy_per_execution
          ≤ d.authorization.max_worst_case_jpy)
unfolding is_exhausted
room d now h = ground arith

new_record_fits_within :
    (u : String → Bool) (i : AdmitCreateInput) (w : ℕ)
    → valid_admission i ≡ true
    → 1 ≤ w
    → w ≤ 10000000
    → valid_record u (new_record i w) ≡ true
unfolding valid_record new_record valid_admission
new_record_fits_within u i w ok low high = ground arith

pub new_record-fits :
    (u : String → Bool) (i : AdmitCreateInput) (d : EnvironmentDocument) (now : ℕ)
    → valid_admission i ≡ true
    → valid_environment d ≡ true
    → is_exhausted d now ≡ false
    → valid_record u (new_record i d.authorization.worst_case_jpy_per_execution) ≡ true
new_record-fits u i d now ok fit free =
    let (_, _, high, _, _, _, _) = bounds d fit in
    let (_, low, _, _) = room d now free in
    new_record_fits_within u i d.authorization.worst_case_jpy_per_execution ok low high

pub admitted_request-fits :
    (i : AdmitCreateInput)
    → valid_admission i ≡ true
    → valid_request (request_document i.identity i.now i.record_expires_at) ≡ true
unfolding valid_request valid_admission request_document
admitted_request-fits i ok = ground (
  arith,
  earlier_trans i.now i.provisioning_deadline i.record_expires_at,
  earlier-date_of i.now i.record_expires_at,
)

one_more : (n w total : ℕ) → total ≡ n * w → total + w ≡ (n + 1) * w
one_more n w total e = grind arith

admitted_handle :
    (i : AdmitCreateInput)
    → valid_admission i ≡ true
    → is_opaque_handle i.identity.execution_handle ≡ true
unfolding valid_admission
admitted_handle i ok = ground arith

admitted_time : (i : AdmitCreateInput) → valid_admission i ≡ true → is_utc i.now ≡ true
unfolding valid_admission
admitted_time i ok = ground arith

admitted-within_authorization :
    (i : AdmitCreateInput) (d : EnvironmentDocument) (now : ℕ)
    → valid_environment d ≡ true
    → is_exhausted d now ≡ false
    → within_authorization (admitted_environment d i now) ≡ true
unfolding admitted_environment within_authorization
admitted-within_authorization i d now fit free =
    let (_, _, _, _, _, e, _) = bounds d fit in
    let (_, _, count, cost) = room d now free in
    let product =
      one_more d.reserved_executions d.authorization.worst_case_jpy_per_execution
        d.reserved_worst_case_jpy e in
    ground arith

pub admitted_environment-fits :
    (i : AdmitCreateInput) (d : EnvironmentDocument) (now : ℕ)
    → valid_admission i ≡ true
    → valid_environment d ≡ true
    → is_exhausted d now ≡ false
    → is_limited d now ≡ false
    → valid_environment (admitted_environment d i now) ≡ true
unfolding Fits admitted_environment active_binding_matches
admitted_environment-fits i d now ok fit free slow =
    let (utc, few) = recent_fits d i.now now (admitted_time i ok) fit slow in
    let (a, _, _, _, _, _, _, _, _, _) = valid_environment→Fits d fit in
    let (most, most_cost, _, _, _, _, _) = bounds d fit in
    let (_, _, count, cost) = room d now free in
    Fits→valid_environment (admitted_environment d i now) (
      a,
      admitted_handle i ok,
      omega arith,
      utc,
      few,
      omega arith,
      omega arith,
      admitted_time i ok,
      refl,
      admitted-within_authorization i d now fit free,
    )

pub claimed_environment-fits :
    (d : EnvironmentDocument) (t : Timestamp) (now : ℕ)
    → is_utc t ≡ true
    → valid_environment d ≡ true
    → is_limited d now ≡ false
    → valid_environment (claimed_environment d t now) ≡ true
unfolding Fits claimed_environment active_binding_matches within_authorization
claimed_environment-fits d t now utc fit slow =
    let (recent, few) = recent_fits d t now utc fit slow in
    let (a, b, c, e, f, g, h, i, j, k) = valid_environment→Fits d fit in
    Fits→valid_environment (claimed_environment d t now) (a, b, c, recent, few, g, h, utc, j, k)

updated-is_utc :
    (u : String → Bool) (r : ControlRecord) → valid_record u r ≡ true → is_utc r.updated_at ≡ true
unfolding valid_record
updated-is_utc u r ok = ground arith

released-within_authorization :
    (d : EnvironmentDocument) (r : ControlRecord)
    → within_authorization d ≡ true
    → within_authorization (released_environment d r) ≡ true
unfolding released_environment within_authorization
released-within_authorization d r h = ground arith

pub released_environment-fits :
    (u : String → Bool) (d : EnvironmentDocument) (r : ControlRecord)
    → valid_record u r ≡ true
    → valid_environment d ≡ true
    → valid_environment (released_environment d r) ≡ true
unfolding Fits released_environment active_binding_matches
released_environment-fits u d r ok fit =
    let (a, b, c, e, f, g, h, i, j, k) = valid_environment→Fits d fit in
    Fits→valid_environment (released_environment d r) (
      a,
      refl,
      omega arith,
      e,
      f,
      g,
      h,
      updated-is_utc u r ok,
      refl,
      released-within_authorization d r k,
    )

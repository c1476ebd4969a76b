-- ===== src/Controller/Firestore/Growth.antt =====
-- The counts over the documents of apps/gpu-controller/src/firestore-control-store.ts, when a document
-- is added and when one takes the place of another.
use scribe_drop.Common.{
  suc, ◌+◌, ◌≤◌, ◌≡◌, refl, ap, ◌∙◌, String, Bool, true, false, List, [], ◌∷◌, ◌++◌, Option, none,
  some, arith, ◌is◌, length, keep, All, is_iff, Bool-cases, inl, inr,
}
use scribe_drop.Common.Assoc.{lookup, put, values, lookup-put}
use scribe_drop.Controller.Contracts.{Environment}
use scribe_drop.Controller.Record.{Timestamp, is_cleaned}
use scribe_drop.Controller.Store.{sum_reserved}
use scribe_drop.Controller.Firestore.Documents.{RequestDocument, ExecutionDocument}
use scribe_drop.Controller.Firestore.Consistent.{
  handle_of, records_of, accepted_times, unclean_handles, request_fits, made_by,
}

pub keep-append :
    (p : Timestamp → Bool) (ts us : List Timestamp) → keep p (ts ++ us) ≡ keep p ts ++ keep p us
keep-append p [] us = refl
keep-append p (t ∷ ts) us = ground (arith, keep-append p ts us)

pub accepted_times-append :
    (qs rs : List RequestDocument)
    → accepted_times (qs ++ rs) ≡ accepted_times qs ++ accepted_times rs
accepted_times-append [] rs = refl
accepted_times-append (q ∷ qs) rs = ap (λ ts. q.accepted_at ∷ ts) (accepted_times-append qs rs)

pub sum_reserved-append :
    (xs : List ExecutionDocument) (x : ExecutionDocument)
    → sum_reserved (records_of (xs ++ (x ∷ [])))
      ≡ sum_reserved (records_of xs) + x.control_record.reserved_worst_case_jpy
sum_reserved-append [] x = omega arith
sum_reserved-append (y ∷ xs) x = omega (arith, sum_reserved-append xs x)

pub unclean_handles-append :
    (xs ys : List ExecutionDocument)
    → unclean_handles (xs ++ ys) ≡ unclean_handles xs ++ unclean_handles ys
unclean_handles-append [] ys = refl
unclean_handles-append (x ∷ xs) ys = ground (arith, unclean_handles-append xs ys)

-- A record that takes another's place.
pub put_counts :
    (k : String) (y x : ExecutionDocument) (m : List (String × ExecutionDocument))
    → lookup k m ≡ some x
    → y.control_record.reserved_worst_case_jpy ≡ x.control_record.reserved_worst_case_jpy
    → (length (values (put k y m)) ≡ length (values m))
      × (sum_reserved (records_of (values (put k y m))) ≡ sum_reserved (records_of (values m)))
unfolding lookup put
put_counts k y x [] found cost = absurd (cc)
put_counts k y x ((j, w) ∷ m) found cost = ground (arith, put_counts k y x m)

pub put_unclean :
    (k : String) (y x : ExecutionDocument) (m : List (String × ExecutionDocument))
    → lookup k m ≡ some x
    → is_cleaned x.control_record.state ≡ false
    → is_cleaned y.control_record.state ≡ false
    → handle_of y ≡ handle_of x
    → unclean_handles (values (put k y m)) ≡ unclean_handles (values m)
unfolding lookup put
put_unclean k y x [] found was now same = absurd (cc)
put_unclean k y x ((j, w) ∷ m) found was now same = ground (arith, put_unclean k y x m)

put_cleaned :
    (k : String) (y x : ExecutionDocument) (m : List (String × ExecutionDocument))
    → lookup k m ≡ some x
    → is_cleaned x.control_record.state ≡ false
    → is_cleaned y.control_record.state ≡ true
    → suc (length (unclean_handles (values (put k y m)))) ≡ length (unclean_handles (values m))
unfolding lookup put
put_cleaned k y x [] found was now = absurd (cc)
put_cleaned k y x ((j, w) ∷ m) found was now = ground (arith, put_cleaned k y x m)

empty_of_length : (xs : List String) (k : String) → suc (length xs) ≡ length (k ∷ []) → xs ≡ []
empty_of_length [] k e = refl
empty_of_length (x ∷ xs) k e = absurd (omega arith)

-- The only record that is not cleaned takes its cleaning.
pub put_last_cleaned :
    (k j : String) (y x : ExecutionDocument) (m : List (String × ExecutionDocument))
    → lookup k m ≡ some x
    → is_cleaned x.control_record.state ≡ false
    → is_cleaned y.control_record.state ≡ true
    → unclean_handles (values m) ≡ j ∷ []
    → unclean_handles (values (put k y m)) ≡ []
put_last_cleaned k j y x m found was now only =
    empty_of_length (unclean_handles (values (put k y m))) j
      (put_cleaned k y x m found was now ∙ ap length only)

pub unclean_nonempty :
    (k : String) (x : ExecutionDocument) (m : List (String × ExecutionDocument))
    → lookup k m ≡ some x
    → is_cleaned x.control_record.state ≡ false
    → 1 ≤ length (unclean_handles (values m))
unfolding lookup
unclean_nonempty k x [] found was = absurd (cc)
unclean_nonempty k x ((i, w) ∷ m) found was = ground (arith, unclean_nonempty k x m)

-- The only unclean record is the one that is found unclean.
pub found_unclean :
    (k j : String) (x : ExecutionDocument) (m : List (String × ExecutionDocument))
    → lookup k m ≡ some x
    → is_cleaned x.control_record.state ≡ false
    → unclean_handles (values m) ≡ j ∷ []
    → handle_of x ≡ j
unfolding lookup
found_unclean k j x [] found was only = absurd (cc)
found_unclean k j x ((i, w) ∷ m) found was only =
    ground (arith, unclean_nonempty k x m, found_unclean k j x m, ap length only)

made_by_kept :
    (id : String) (o : Option ExecutionDocument) (y : ExecutionDocument)
    → ((x : ExecutionDocument)
        → o ≡ some x
        → y.control_record.bootstrap_request_id ≡ x.control_record.bootstrap_request_id)
    → made_by id o ≡ true
    → made_by id (some y) ≡ true
made_by_kept id none y same h = cc
made_by_kept id (some x) y same h = rw (same x refl) h

made_by-put :
    (id j k : String) (y : ExecutionDocument) (m : List (String × ExecutionDocument))
    → ((x : ExecutionDocument)
        → lookup k m ≡ some x
        → y.control_record.bootstrap_request_id ≡ x.control_record.bootstrap_request_id)
    → made_by id (lookup j m) ≡ true
    → made_by id (lookup j (put k y m)) ≡ true
made_by-put id j k y m same h = elim (Bool-cases (k is j)) [
  | inl here ↦
      rw (lookup-put k j y m, here)
        (made_by_kept id (lookup k m) y same (rw ((is_iff k j).0 here) h))
  | inr other ↦ rw (lookup-put k j y m, other) h
]

-- What fits while the record of a create request keeps its bootstrap request.
pub fits_after_put :
    (e : Environment) (k : String) (y : ExecutionDocument) (m : List (String × ExecutionDocument))
    (qs : List RequestDocument)
    → ((x : ExecutionDocument)
        → lookup k m ≡ some x
        → y.control_record.bootstrap_request_id ≡ x.control_record.bootstrap_request_id)
    → All (λ q. request_fits e m q ≡ true) qs
    → All (λ q. request_fits e (put k y m) q ≡ true) qs
fits_after_put e k y m [] same a = tt
fits_after_put e k y m (q ∷ qs) same (p, a) = (
  ground (arith, made_by-put q.identity.request_id q.identity.execution_handle k y m same),
  fits_after_put e k y m qs same a,
)

-- ===== src/Controller/Budget.antt =====
-- The budget under which apps/gpu-controller/src/control-store.ts admits executions, while the
-- controller runs.
use mathlib.Core.Path.{subst}
use scribe_drop.Common.{
  ℕ, suc, ◌+◌, ◌≤◌, ◌<◌, ◌≡◌, refl, ap, sym, ◌∙◌, inl, inr, String, Bool, false, List, [], ◌∷◌,
  none, some, arith, keep, length, Bool-cases,
}
use scribe_drop.Common.Assoc.{lookup, put, values}
use scribe_drop.Controller.Contracts.{Environment, same_environment, same_environment_sound}
use scribe_drop.Controller.Record.{ControlRecord}
use scribe_drop.Controller.Store.{
  ControlStore, SyntheticAuthorization, AdmitCreateInput, AdmitCreateResult, ClaimRequestInput,
  ClaimRequestResult, admit_create, claim_request, compare_and_set, existing, over_budget,
  sum_reserved, new_record,
}
use scribe_drop.Controller.Store.Outcomes.{
  Replaced, compare_and_set-Replaced, Admission, admit_create-Admission, admitted_record, Claim,
  claim_request-Claim,
}
use scribe_drop.Controller.Program.{Controller}
use scribe_drop.Controller.System.{System, Reach, idle}
use scribe_drop.Controller.Stored.{Reach-keeps}
use scribe_drop.Controller.Persistence.{same_origin_fields}

room_left :
    (a : SyntheticAuthorization) (rs : List ControlRecord) (now : ℕ)
    → over_budget a rs now ≡ false
    → (sum_reserved rs + a.worst_case_jpy_per_execution ≤ a.max_worst_case_jpy)
      × (length rs < a.max_executions)
unfolding over_budget
room_left a rs now h = ground arith

module _ (e : Environment) where
  of_environment : List (String × ControlRecord) → List ControlRecord
  of_environment m = keep (λ r. same_environment r.environment e) (values m)

  reserved_in : List (String × ControlRecord) → ℕ
  unfolding of_environment
  reserved_in m = sum_reserved (of_environment m)

  count_in : List (String × ControlRecord) → ℕ
  unfolding of_environment
  count_in m = length (of_environment m)

  -- A record under a new handle adds its reservation, and one under an old handle replaces another.
  grows :
      (k : String) (v : ControlRecord) (m : List (String × ControlRecord))
      → lookup k m ≡ none
      → (reserved_in (put k v m) ≤ reserved_in m + v.reserved_worst_case_jpy)
        × (count_in (put k v m) ≤ suc (count_in m))
  unfolding lookup put reserved_in count_in
  grows k v [] missing = ground arith
  grows k v ((j, w) ∷ m) missing = ground (arith, grows k v m)

  stays :
      (k : String) (v x : ControlRecord) (m : List (String × ControlRecord))
      → lookup k m ≡ some x
      → v.environment ≡ x.environment
      → v.reserved_worst_case_jpy ≡ x.reserved_worst_case_jpy
      → (reserved_in (put k v m) ≡ reserved_in m) × (count_in (put k v m) ≡ count_in m)
  unfolding lookup put reserved_in count_in
  stays k v x [] found same cost = ground arith
  stays k v x ((j, w) ∷ m) found same cost = ground (arith, stays k v x m)

  elsewhere :
      (k : String) (v : ControlRecord) (m : List (String × ControlRecord))
      → lookup k m ≡ none
      → same_environment v.environment e ≡ false
      → (reserved_in (put k v m) ≡ reserved_in m) × (count_in (put k v m) ≡ count_in m)
  unfolding lookup put reserved_in count_in
  elsewhere k v [] missing other = ground arith
  elsewhere k v ((j, w) ∷ m) missing other = ground (arith, elsewhere k v m)

  abbrev Within : (Environment → SyntheticAuthorization) → ControlStore → Type 0
  Within a s =
      (s.authorizations ≡ a)
      × (reserved_in s.records ≤ (a e).max_worst_case_jpy)
      × (count_in s.records ≤ (a e).max_executions)

  room_at :
      (a : Environment → SyntheticAuthorization) (s : ControlStore) (f : Environment) (now : ℕ)
      → s.authorizations ≡ a
      → f ≡ e
      → over_budget (s.authorizations f) (existing f s) now ≡ false
      → (reserved_in s.records + (s.authorizations f).worst_case_jpy_per_execution
          ≤ (a e).max_worst_case_jpy)
        × (count_in s.records < (a e).max_executions)
  unfolding existing reserved_in count_in of_environment
  room_at a s f now eq here within =
      let within_e =
        subst (λ g. over_budget (s.authorizations g) (existing g s) now ≡ false) here within in
      let (cost, count) = room_left (s.authorizations e) (existing e s) now within_e in
      let worst = ap (λ g. (s.authorizations g).worst_case_jpy_per_execution) here in
      let most = ap (λ g. (g e).max_worst_case_jpy) eq in
      let most_count = ap (λ g. (g e).max_executions) eq in (omega arith, omega arith)

  module _ (a : Environment → SyntheticAuthorization) where
    Within-admit :
        (s : ControlStore) (i : AdmitCreateInput) (r : ControlStore × AdmitCreateResult)
        → Admission s i r
        → Within a s
        → Within a r.0
    unfolding new_record
    Within-admit s i (t, x) (inl (same, _)) p = subst (Within a) (sym same) p
    Within-admit s i (t, x) (inr (_, missing, kept, records, (now, _, within))) (eq, cost, count) =
        let n = admitted_record s i in
        let k = i.identity.execution_handle in
        elim (Bool-cases (same_environment i.identity.environment e)) [
          | inl here ↦
              let (more, more_count) = grows k n s.records missing in
              let (room, room_count) =
                room_at a s i.identity.environment now eq
                  (same_environment_sound i.identity.environment e here) within in
              let moved = ap reserved_in records in
              let moved_count = ap count_in records in (kept ∙ eq, omega arith, omega arith)
          | inr other ↦
              let (more, more_count) = elsewhere k n s.records missing other in
              let moved = ap reserved_in records in
              let moved_count = ap count_in records in (kept ∙ eq, omega arith, omega arith)
        ]

    Within-set :
        (s t : ControlStore) (v : ℕ) (n : ControlRecord) (x : Bool)
        → Replaced s v n (t, x)
        → Within a s
        → Within a t
    Within-set s t v n x (inl (_, same)) p = subst (Within a) (sym same) p
    Within-set s t v n x (inr (_, same, (z, found, _, _, o))) (eq, cost, count) =
        let (same_e, _, _, same_cost) = same_origin_fields n z o in
        let (more, more_count) =
          stays n.execution_handle n z s.records found
            (same_environment_sound n.environment z.environment same_e) same_cost in
        let moved = ap (λ u. reserved_in u.records) same in
        let moved_count = ap (λ u. count_in u.records) same in
        (ap (λ u. u.authorizations) same ∙ eq, omega arith, omega arith)

    Within-Claim :
        (s : ControlStore) (i : ClaimRequestInput) (r : ControlStore × ClaimRequestResult)
        → Claim s i r
        → Within a s
        → Within a r.0
    Within-Claim s i (t, x) (same, kept, _) (eq, cost, count) =
        let moved = ap reserved_in same in
        let moved_count = ap count_in same in (kept ∙ eq, omega arith, omega arith)

  idle-Within : (s : ControlStore) → s.records ≡ [] → Within s.authorizations s
  unfolding reserved_in count_in of_environment
  idle-Within s empty =
      let none_reserved = ap reserved_in empty in
      let none_counted = ap count_in empty in (refl, omega arith, omega arith)

-- While the controller runs from a store without records, whatever the interleaving of its requests and
-- whatever the provider answers, the reservations of an environment's records never add up to more
-- than what the environment's authorization allows, and there are never more of them than it allows.
pub never_over_budget :
    (k : Controller) (store : ControlStore) (t : System) (e : Environment)
    → store.records ≡ []
    → Reach k (idle store) t
    → (sum_reserved (existing e t.store) ≤ (store.authorizations e).max_worst_case_jpy)
      × (length (existing e t.store) ≤ (store.authorizations e).max_executions)
unfolding existing reserved_in count_in of_environment
never_over_budget k store t e empty reach =
    let a = store.authorizations in
    let (_, cost, count) =
      Reach-keeps (Within e a)
        (λ s i p. Within-admit e a s i (admit_create s i) (admit_create-Admission s i) p)
        (λ s i p. Within-Claim e a s i (claim_request s i) (claim_request-Claim s i) p)
        (λ s v n p.
          Within-set e a s (compare_and_set s v n).0 v n (compare_and_set s v n).1
            (compare_and_set-Replaced s v n) p)
        k (idle store) t reach (idle-Within e store empty) in
    (cost, count)

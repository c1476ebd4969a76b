-- ===== src/Domain/Retention.antt =====
-- packages/domain/src/retention.ts: when an upload or a result may be deleted, given the last
-- capability that was issued for it.
pub mod Laws
use Prim.Native.Nat.{max}
use scribe_drop.Common.{
  ℕ, ◌+◌, ◌*◌, Bool, true, false, not, ◌&&◌, Option, none, some, Number, natural, other, is_natural,
  round_double, if◌then◌else◌,
}

abbrev pub r2_capability_ttl_seconds : ℕ
r2_capability_ttl_seconds = 2 * 60 * 60

abbrev pub user_deletion_capability_grace_seconds : ℕ
user_deletion_capability_grace_seconds = 5 * 60

-- A number, or the error that is thrown.
pub data Result : Type 0 where
  returns : ℕ → Result
  bad_request_time bad_issue_time : Result

abbrev value : Number → ℕ
value (natural n) = n
value other = 0

abbrev issue_is_bad : Option Number → Bool
issue_is_bad none = false
issue_is_bad (some n) = not (is_natural n)

unfoldable pub deletion_not_before : Number → Option Number → Result
deletion_not_before requested_at latest =
    if not (is_natural requested_at)
    then bad_request_time
    else if issue_is_bad latest
    then bad_issue_time
    else elim latest [
      | none ↦ returns (value requested_at)
      | some issued ↦ returns (
          max (value requested_at) (
            round_double (
              value issued
              + (r2_capability_ttl_seconds + user_deletion_capability_grace_seconds) * 1000)))
    ]

-- ===== src/Domain/Retention/Laws.antt =====
-- What packages/domain/src/retention.ts guarantees of the deletion time.
use Prim.Native.Nat.{max}
use scribe_drop.Common.{
  ℕ, ◌+◌, ◌^◌, ◌≤◌, ◌≡◌, ◌⊎◌, round_double, true, none, some, natural, is_natural, arith,
}
use scribe_drop.Domain.Retention.{returns, deletion_not_before}

-- A deletion time that is given is not before the request, at most one rounded millisecond before the
-- last capability's issue with its lifetime and grace of 7,500,000 ms, and not later than both: it is
-- the request's time or at most one millisecond after that issue with those 7,500,000 ms.
pub deletion_waits :
    (requested issued t : ℕ)
    → deletion_not_before (natural requested) (some (natural issued)) ≡ returns t
    → (requested ≤ t) × (issued + 7500000 ≤ t + 1) × ((t ≡ requested) ⊎ (t ≤ issued + 7500001))
unfolding deletion_not_before
deletion_waits r i t h = ground arith

-- As long as the issue and those 7,500,000 ms add up to at most 2 ^ 53, a deletion time that is given
-- is exactly the later of that sum and the request.
pub deletion_exact :
    (requested issued t : ℕ)
    → issued + 7500000 ≤ 2 ^ 53
    → deletion_not_before (natural requested) (some (natural issued)) ≡ returns t
    → t ≡ max requested (issued + 7500000)
unfolding deletion_not_before
deletion_exact r i t small h = ground arith

-- With safe times the deletion time is always given, and with no capability it is the request's.
pub deletion_given :
    (requested issued : ℕ)
    → is_natural (natural requested) ≡ true
    → is_natural (natural issued) ≡ true
    → (deletion_not_before (natural requested) none ≡ returns requested)
      × ((t : ℕ) × (deletion_not_before (natural requested) (some (natural issued)) ≡ returns t))
unfolding deletion_not_before
deletion_given r i h k = (ground arith, (max r (round_double (i + 7500000)), ground arith))

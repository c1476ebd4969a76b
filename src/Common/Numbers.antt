-- ===== src/Common/Numbers.antt =====
-- The JavaScript numbers that the code guards: a natural number, or anything else that `number` can
-- hold (negative, fractional, infinite or not a number).
use Prim.Native.Nat.{ℕ, ◌-◌, ◌+◌, ◌^◌, ◌%◌}
use mathlib.Core.Bool.{Bool, false}
use scribe_drop.Common.Tests.{leb, ◌==◌, if◌then◌else◌}

pub data Number : Type 0 where
  natural : ℕ → Number
  other : Number

abbrev pub max_safe_integer : ℕ
max_safe_integer = 2 ^ 53 - 1

-- `Number.isSafeInteger(n) && n >= 0`.
abbrev pub is_natural : Number → Bool
is_natural (natural n) = leb n max_safe_integer
is_natural other = false

-- What a double keeps of an exact sum below 2 ^ 54: from 2 ^ 53 on, the even numbers, a tie going to
-- the multiple of four.
abbrev pub round_double : ℕ → ℕ
round_double n =
    if leb n (2 ^ 53) then n else if n % 4 == 1 then n - 1 else if n % 4 == 3 then n + 1 else n

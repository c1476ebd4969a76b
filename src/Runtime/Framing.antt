-- ===== src/Runtime/Framing.antt =====
-- `frameRuntimeChallenge` of apps/orchestrator/src/cloud-run-runtime-service.ts: the fields of a
-- challenge, each behind its length in bytes and a colon. `encode` is the platform's UTF-8 encoder.
pub mod Apart
pub mod Tests
use Prim.Native.String.{◌++◌ as ◌<>◌}
use scribe_drop.Common.{
  ℕ, zero, suc, ◌/◌, ◌%◌, String, true, false, List, [], ◌∷◌, none, some, ltb, length, get_elem?,
}

abbrev decimal_digits : List String
decimal_digits = "0" ∷ "1" ∷ "2" ∷ "3" ∷ "4" ∷ "5" ∷ "6" ∷ "7" ∷ "8" ∷ "9" ∷ []

unfoldable pub decimal_digit : ℕ → String
decimal_digit n = elim (get_elem? decimal_digits n) [ none ↦ "" | some d ↦ d ]

-- `String(n)`. A number has at most as many digits as itself and one.
unfoldable pub decimal_within : ℕ → ℕ → String
unfolding decimal_digit
decimal_within zero n = ""
decimal_within (suc fuel) n = elim (ltb n 10) [
  | true ↦ decimal_digit n
  | false ↦ decimal_within fuel (n / 10) <> decimal_digit (n % 10)
]

unfoldable pub decimal : ℕ → String
unfolding decimal_within
decimal n = decimal_within (suc n) n

unfoldable pub framed_text : (String → List ℕ) → List String → String
unfolding decimal
framed_text encode [] = ""
framed_text encode (field ∷ fields) =
    decimal (length (encode field)) <> (":" <> (field <> framed_text encode fields))

unfoldable pub frame_runtime_challenge : (String → List ℕ) → List String → List ℕ
unfolding framed_text
frame_runtime_challenge encode fields = encode (framed_text encode fields)

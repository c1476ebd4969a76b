-- ===== src/Domain/Ulid.antt =====
-- packages/domain/src/ulid.ts: identifiers that sort by their time. A text is the list of its
-- character codes; a `bigint` is a natural number, `& 31n` and `>> 5n` are division by 32, and
-- `(v << 8n) | byte` is `v * 256 + byte` for the bytes that a `Uint8Array` holds.
pub mod Laws
pub mod Order
use scribe_drop.Common.{
  ℕ, zero, suc, ◌+◌, ◌-◌, ◌*◌, ◌/◌, ◌%◌, ◌^◌, Bool, List, [], ◌∷◌, ◌++◌, Option, none, some, Number,
  natural, other, max_safe_integer, leb, ◌==◌, false, not, ◌&&◌, if◌then◌else◌, get_elem?, length,
}

-- A text, or the error that is thrown.
pub data Result : Type 0 where
  returns : List ℕ → Result
  alphabet_failed too_long bad_timestamp bad_random : Result

abbrev pub crockford_base32 : List ℕ
crockford_base32 =
    b'0' ∷ b'1' ∷ b'2' ∷ b'3' ∷ b'4' ∷ b'5' ∷ b'6' ∷ b'7' ∷ b'8' ∷ b'9' ∷ b'A' ∷ b'B' ∷ b'C' ∷ b'D'
    ∷ b'E' ∷ b'F' ∷ b'G' ∷ b'H' ∷ b'J' ∷ b'K' ∷ b'M' ∷ b'N' ∷ b'P' ∷ b'Q' ∷ b'R' ∷ b'S' ∷ b'T'
    ∷ b'V' ∷ b'W' ∷ b'X' ∷ b'Y' ∷ b'Z' ∷ []

abbrev pub ulid_random_bytes : ℕ
ulid_random_bytes = 10

abbrev pub ulid_time_length : ℕ
ulid_time_length = 10

abbrev pub ulid_random_length : ℕ
ulid_random_length = 16

abbrev pub max_ulid_timestamp : ℕ
max_ulid_timestamp = 2 ^ 48 - 1

-- The loop of `encodeBase32` with its rounds left, and the test behind it.
unfoldable pub encode_loop : ℕ → ℕ → List ℕ → Result
encode_loop zero remaining encoded = if remaining == 0 then returns encoded else too_long
encode_loop (suc rounds) remaining encoded = elim (get_elem? crockford_base32 (remaining % 32)) [
  | none ↦ alphabet_failed
  | some character ↦ encode_loop rounds (remaining / 32) (character ∷ encoded)
]

unfoldable pub encode_base32 : ℕ → ℕ → Result
encode_base32 value rounds = encode_loop rounds value []

-- `for (const byte of random)`.
unfoldable pub fold_bytes : ℕ → List ℕ → ℕ
fold_bytes v [] = v
fold_bytes v (byte ∷ bytes) = fold_bytes (v * 256 + byte) bytes

unfoldable pub join : Result → Result → Result
join (returns a) (returns b) = returns (a ++ b)
join (returns a) e = e
join e _ = e

abbrev pub timestamp_in_range : Number → Bool
timestamp_in_range (natural n) = leb n max_safe_integer && leb n max_ulid_timestamp
timestamp_in_range other = false

abbrev timestamp_value : Number → ℕ
timestamp_value (natural n) = n
timestamp_value other = 0

unfoldable pub create_ulid : Number → (ℕ → List ℕ) → Result
create_ulid timestamp random_bytes =
    let random = random_bytes ulid_random_bytes in
    if not (timestamp_in_range timestamp)
    then bad_timestamp
    else if not (length random == ulid_random_bytes)
    then bad_random
    else join (encode_base32 (timestamp_value timestamp) ulid_time_length)
        (encode_base32 (fold_bytes 0 random) ulid_random_length)

-- ===== src/Domain/Ulid/Laws.antt =====
-- What the base 32 texts of packages/domain/src/ulid.ts stand for.
use native.Mathlib.Nat.{pow-suc}
use mathlib.Core.List.{append_assoc, append-nil}
use scribe_drop.Common.{
  ℕ, zero, suc, ◌+◌, ◌*◌, ◌/◌, ◌%◌, ◌^◌, ◌<◌, ◌≤◌, ◌≡◌, refl, Bool, true, false, List, [], ◌∷◌,
  ◌++◌, Option, none, some, natural, ◌==◌, get_elem?, length, ap, ◌∙◌, length-append, arith, All,
  All-append, Bool-cases, inl, inr,
}
use scribe_drop.Domain.Ulid.{
  Result, returns, too_long, crockford_base32, encode_loop, encode_base32, fold_bytes, join,
  create_ulid,
}

abbrev index_of : List ℕ → ℕ → ℕ
index_of [] c = 0
index_of (d ∷ ds) c = elim (d == c) [ true ↦ 0 | false ↦ suc (index_of ds c) ]

-- The digit that a character stands for.
unfoldable pub digit : ℕ → ℕ
digit c = index_of crockford_base32 c

-- The number that a text stands for, the first digit counting most.
unfoldable pub decode : ℕ → List ℕ → ℕ
decode v [] = v
decode v (c ∷ cs) = decode (v * 32 + digit c) cs

reads_back : ℕ → Bool
unfolding digit
reads_back d = elim (get_elem? crockford_base32 d) [ none ↦ false | some c ↦ digit c == d ]

-- The check holds of every digit below the limit.
unfoldable pub true_below : (ℕ → Bool) → ℕ → Bool
true_below check zero = true
true_below check (suc limit) = elim (check limit) [ true ↦ true_below check limit | false ↦ false ]

pub true_below_at :
    (check : ℕ → Bool) (limit at : ℕ) → at < limit → true_below check limit ≡ true → check at ≡ true
unfolding true_below
true_below_at check zero at below holds = absurd (omega arith)
true_below_at check (suc limit) at below holds = elim (Bool-cases (at == limit)) [
  | inl last ↦ ground (arith)
  | inr before ↦ ground (arith, true_below_at check limit at)
]

alphabet_reads_back : true_below reads_back 32 ≡ true
unfolding true_below reads_back
alphabet_reads_back = refl

pub digit-get_elem? :
    (d : ℕ) → d < 32 → (c : ℕ) × (get_elem? crockford_base32 d ≡ some c) × (digit c ≡ d)
unfolding reads_back
digit-get_elem? d h = go (get_elem? crockford_base32 d) refl
  where
    go :
        (o : Option ℕ)
        → get_elem? crockford_base32 d ≡ o
        → (c : ℕ) × (get_elem? crockford_base32 d ≡ some c) × (digit c ≡ d)
    go none e = absurd (ground (arith, true_below_at reads_back 32 d h alphabet_reads_back))
    go (some c) e = (c, e, ground (arith, true_below_at reads_back 32 d h alphabet_reads_back))

-- A character of the alphabet.
abbrev pub IsDigit : ℕ → Type 0
IsDigit c = (digit c < 32) × (get_elem? crockford_base32 (digit c) ≡ some c)

abbrev pub Encodes : ℕ → ℕ → List ℕ → Result → Type 0
Encodes rounds value encoded r =
    (ds : List ℕ) × (r ≡ returns (ds ++ encoded))
    × (length ds ≡ rounds)
    × ((v : ℕ) → decode v (ds ++ encoded) ≡ decode (v * 32 ^ rounds + value) encoded)
    × All IsDigit ds

pow_split : (v n m : ℕ) → (v * 32 ^ n + m / 32) * 32 + m % 32 ≡ v * 32 ^ suc n + m
pow_split v n m = omega (arith, ap (λ (t : ℕ). v * t) (pow-suc 32 n))

decode-digit :
    (v n m c : ℕ) (encoded : List ℕ)
    → digit c ≡ m % 32
    → decode (v * 32 ^ n + m / 32) (c ∷ encoded) ≡ decode (v * 32 ^ suc n + m) encoded
unfolding decode
decode-digit v n m c encoded e = rw e (ap (λ w. decode w encoded) (pow_split v n m))

Encodes-more :
    (n m c : ℕ) (encoded : List ℕ) (r : Result)
    → digit c ≡ m % 32
    → get_elem? crockford_base32 (m % 32) ≡ some c
    → Encodes n (m / 32) (c ∷ encoded) r
    → Encodes (suc n) m encoded r
Encodes-more n m c encoded r e found (ds, eq, len, val, dig) = (
  ds ++ (c ∷ []),
  rw (append_assoc ds (c ∷ []) encoded) eq,
  omega (arith, len, length-append ds (c ∷ [])),
  λ v. rw (append_assoc ds (c ∷ []) encoded) (val v ∙ decode-digit v n m c encoded e),
  All-append IsDigit ds (c ∷ []) dig ((omega (arith, e), rw e found), tt),
)

pub encode_loop-Encodes :
    (n m : ℕ) (encoded : List ℕ) → m < 32 ^ n → Encodes n m encoded (encode_loop n m encoded)
unfolding encode_loop
encode_loop-Encodes zero m encoded h =
    ([], ground arith, refl, λ v. ap (λ w. decode w encoded) (omega arith), tt)
encode_loop-Encodes (suc n) m encoded h =
    let (c, found, value) = digit-get_elem? (m % 32) (omega arith) in
    rw (found, encode_loop)
      (Encodes-more n m c encoded _ value found
        (encode_loop-Encodes n (m / 32) (c ∷ encoded) (omega (arith, pow-suc 32 n))))

-- A number below 32 ^ n is written in exactly n characters of the alphabet, which read back as it.
pub decode-encode_base32 :
    (n m : ℕ)
    → m < 32 ^ n
    → (ds : List ℕ) × (encode_base32 m n ≡ returns ds)
      × (length ds ≡ n)
      × (decode 0 ds ≡ m)
      × All IsDigit ds
unfolding encode_base32 decode
decode-encode_base32 n m h =
    let (ds, eq, len, val, dig) = encode_loop-Encodes n m [] h in
    (ds, rw (append-nil ds) at eq, len, (rw (append-nil ds) at (val 0)) ∙ omega arith, dig)

encode_loop_overflow :
    (n m : ℕ) (encoded : List ℕ) → 32 ^ n ≤ m → encode_loop n m encoded ≡ too_long
unfolding encode_loop
encode_loop_overflow zero m encoded h = ground arith
encode_loop_overflow (suc n) m encoded h =
    let (c, found, value) = digit-get_elem? (m % 32) (omega arith) in
    rw (found, encode_loop)
      (encode_loop_overflow n (m / 32) (c ∷ encoded) (omega (arith, pow-suc 32 n)))

-- A number that does not fit its digits is refused.
pub encode_base32_overflow : (n m : ℕ) → 32 ^ n ≤ m → encode_base32 m n ≡ too_long
unfolding encode_base32
encode_base32_overflow n m h = encode_loop_overflow n m [] h

fold_bytes-lt :
    (v : ℕ) (bytes : List ℕ) (k : ℕ)
    → v < k
    → All (λ b. b < 256) bytes
    → fold_bytes v bytes < k * 256 ^ length bytes
unfolding fold_bytes
fold_bytes-lt v [] k h small = omega arith
fold_bytes-lt v (b ∷ bytes) k h (s, small) = omega (
  arith,
  fold_bytes-lt (v * 256 + b) bytes (k * 256) (omega arith) small,
  ap (λ (t : ℕ). k * t) (pow-suc 256 (length bytes)),
)

-- The bytes of a number, `n` of them, the highest first, in front of others.
unfoldable pub bytes_of : ℕ → ℕ → List ℕ → List ℕ
bytes_of zero v bytes = bytes
bytes_of (suc n) v bytes = bytes_of n (v / 256) (v % 256 ∷ bytes)

bytes_of-fold_bytes :
    (k v : ℕ) (bytes after : List ℕ)
    → All (λ b. b < 256) bytes
    → bytes_of (length bytes + k) (fold_bytes v bytes) after ≡ bytes_of k v (bytes ++ after)
unfolding fold_bytes bytes_of
bytes_of-fold_bytes k v [] after small =
    let count : length {A = ℕ} [] + k ≡ k = omega arith in ap (λ n. bytes_of n v after) count
bytes_of-fold_bytes k v (b ∷ bytes) after (s, small) =
    let count : length (b ∷ bytes) + k ≡ length bytes + suc k = omega arith in
    let high : (v * 256 + b) / 256 ≡ v = omega (arith, s) in
    let low : (v * 256 + b) % 256 ≡ b = omega (arith, s) in
    ap (λ n. bytes_of n (fold_bytes (v * 256 + b) bytes) after) count
    ∙ bytes_of-fold_bytes (suc k) (v * 256 + b) bytes after small
    ∙ ap (λ w. bytes_of k w ((v * 256 + b) % 256 ∷ (bytes ++ after))) high
    ∙ ap (λ c. bytes_of k v (c ∷ (bytes ++ after))) low

-- Ten bytes are read back from the number that they stand for.
ten_bytes_back :
    (bytes : List ℕ)
    → length bytes ≡ 10
    → All (λ b. b < 256) bytes
    → bytes_of 10 (fold_bytes 0 bytes) [] ≡ bytes
unfolding bytes_of
ten_bytes_back bytes ten small =
    let count : 10 ≡ length bytes + 0 = omega (arith, ten) in
    ap (λ n. bytes_of n (fold_bytes 0 bytes) []) count
    ∙ bytes_of-fold_bytes 0 0 bytes [] small
    ∙ append-nil bytes

-- With a time of at most 48 bits and ten random bytes an identifier is made. It has 26 characters: ten
-- that read back as the time, and sixteen that read back as the random bytes.
pub decode-create_ulid :
    (t : ℕ) (random_bytes : ℕ → List ℕ)
    → t < 2 ^ 48
    → length (random_bytes 10) ≡ 10
    → All (λ b. b < 256) (random_bytes 10)
    → (time random : List ℕ) × (create_ulid (natural t) random_bytes ≡ returns (time ++ random))
      × (length time ≡ 10)
      × (length random ≡ 16)
      × (decode 0 time ≡ t)
      × (bytes_of 10 (decode 0 random) [] ≡ random_bytes 10)
      × All IsDigit time
unfolding create_ulid join
decode-create_ulid t random_bytes h ten small =
    let below = fold_bytes-lt 0 (random_bytes 10) 1 (omega arith) small in
    let (time, e, l, v, d) = decode-encode_base32 10 t (omega arith) in
    let (random, e', l', v', d') =
      decode-encode_base32 16 (fold_bytes 0 (random_bytes 10)) (rw ten at below) in
    (time, random, ground (arith, e, e', ten), l, l', v, back v', d)
  where
    back : {w : ℕ} → w ≡ fold_bytes 0 (random_bytes 10) → bytes_of 10 w [] ≡ random_bytes 10
    back e = ap (λ x. bytes_of 10 x []) e ∙ ten_bytes_back (random_bytes 10) ten small

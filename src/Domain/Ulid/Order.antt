-- ===== src/Domain/Ulid/Order.antt =====
-- The identifiers of packages/domain/src/ulid.ts sort by their time.
use mathlib.Core.Path.{subst, subst₂, ap₂}
use native.Mathlib.Nat.{pow-suc}
use native.Mathlib.Decide.{dec_lt, ℕ_discrete}
use scribe_drop.Common.{
  ℕ, ◌+◌, ◌*◌, ◌^◌, ◌<◌, ◌≤◌, ◌≡◌, refl, ap, ◌∙◌, sym, Bool, true, false, List, [], ◌∷◌, ◌++◌,
  Option, some, natural, ltb, get_elem?, length, arith, All, ◌⊎◌, inl, inr,
}
use scribe_drop.Domain.Ulid.{returns, crockford_base32, create_ulid}
use scribe_drop.Domain.Ulid.Laws.{
  digit, decode, IsDigit, true_below, true_below_at, decode-create_ulid,
}

-- The order of texts, by their character codes.
abbrev pub Before : List ℕ → List ℕ → Type 0
Before [] _ = ⊥
Before (c ∷ cs) [] = ⊥
Before (c ∷ cs) (d ∷ ds) = (c < d) ⊎ ((c ≡ d) × Before cs ds)

Before-append : (a b x y : List ℕ) → Before a b → Before (a ++ x) (b ++ y)
Before-append [] b x y h = absurd h
Before-append (c ∷ a) [] x y h = absurd h
Before-append (c ∷ a) (d ∷ b) x y (inl h) = inl h
Before-append (c ∷ a) (d ∷ b) x y (inr (e, h)) = inr (e, Before-append a b x y h)

-- The alphabet is sorted.
rises_at : ℕ → ℕ → Option ℕ → Option ℕ → Bool
rises_at i j (some c) (some d) = elim (ltb i j) [ true ↦ ltb c d | false ↦ true ]
rises_at i j _ _ = true

rises : ℕ → ℕ → Bool
unfolding rises_at
rises i j = rises_at i j (get_elem? crockford_base32 i) (get_elem? crockford_base32 j)

alphabet_rises : true_below (λ i. true_below (rises i) 32) 32 ≡ true
unfolding true_below rises
alphabet_rises = refl

lt_of_rises_at : (i j c d : ℕ) → i < j → rises_at i j (some c) (some d) ≡ true → c < d
unfolding rises_at
lt_of_rises_at i j c d h e = ground arith

lt_of_digit : (c d : ℕ) → IsDigit c → IsDigit d → digit c < digit d → c < d
unfolding rises
lt_of_digit c d (lc, fc) (ld, fd) h =
    let table =
      true_below_at (rises (digit c)) 32 (digit d) ld
        (true_below_at (λ i. true_below (rises i) 32) 32 (digit c) lc alphabet_rises) in
    lt_of_rises_at (digit c) (digit d) c d h
      (ap₂ (rises_at (digit c) (digit d)) (sym fc) (sym fd) ∙ table)

eq_of_digit : (c d : ℕ) → IsDigit c → IsDigit d → digit c ≡ digit d → c ≡ d
eq_of_digit c d (lc, fc) (ld, fd) h = cc (ap (get_elem? crockford_base32) h)

digit_row : (d p : ℕ) → d < 32 → (d + 1) * p ≤ 32 * p
digit_row d p h = grind arith

widen :
    (v d p q x : ℕ)
    → d < 32
    → q ≡ p * 32
    → (v * 32 + d) * p ≤ x
    → x < (v * 32 + d + 1) * p
    → (v * q ≤ x) × (x < (v + 1) * q)
widen v d p q x h e low high = omega (arith, digit_row d p h, ap (λ (t : ℕ). v * t) e)

gap : (a b p x y : ℕ) → b + 1 ≤ a → a * p ≤ x → y < (b + 1) * p → y < x
gap a b p x y h k l = grind arith

decode_bounds :
    (v : ℕ) (ds : List ℕ)
    → All IsDigit ds
    → (v * 32 ^ length ds ≤ decode v ds) × (decode v ds < (v + 1) * 32 ^ length ds)
unfolding decode
decode_bounds v [] h = (omega arith, omega arith)
decode_bounds v (c ∷ ds) ((lt, f), h) =
    let (low, high) = decode_bounds (v * 32 + digit c) ds h in
    widen v (digit c) (32 ^ length ds) _ _ lt (pow-suc 32 (length ds)) low high

Before-of_decode :
    (v : ℕ) (ds es : List ℕ)
    → length ds ≡ length es
    → All IsDigit ds
    → All IsDigit es
    → decode v ds < decode v es
    → Before ds es
unfolding decode
Before-of_decode v [] [] l hd he h = absurd (omega arith)
Before-of_decode v [] (e ∷ es) l hd he h = absurd (omega arith)
Before-of_decode v (d ∷ ds) [] l hd he h = absurd (omega arith)
Before-of_decode v (d ∷ ds) (e ∷ es) l (hd, hds) (he, hes) h = elim (dec_lt (digit d) (digit e)) [
  | yes lt ↦ inl (lt_of_digit d e hd he lt)
  | no nlt ↦ elim (ℕ_discrete (digit d) (digit e)) [
    | yes eq ↦ inr (
      eq_of_digit d e hd he eq,
      Before-of_decode (v * 32 + digit d) ds es (omega arith) hds hes
          (subst (λ z. decode (v * 32 + digit d) ds < decode (v * 32 + z) es) (sym eq) h),
    )
    | no neq ↦ absurd (
        omega (
          arith,
          gap (v * 32 + digit d) (v * 32 + digit e) (32 ^ length ds) (decode (v * 32 + digit d) ds)
              (decode (v * 32 + digit e) es) (omega arith)
              (decode_bounds (v * 32 + digit d) ds hds).0
              (subst (λ n. decode (v * 32 + digit e) es < (v * 32 + digit e + 1) * 32 ^ n)
                (omega arith) (decode_bounds (v * 32 + digit e) es hes).1),
        ))
  ]
]

-- An identifier made at an earlier millisecond sorts before one made at a later one, whatever the
-- random bytes.
pub create_ulid-Before :
    (t u : ℕ) (random random' : ℕ → List ℕ) (x y : List ℕ)
    → t < u
    → u < 2 ^ 48
    → length (random 10) ≡ 10
    → length (random' 10) ≡ 10
    → All (λ b. b < 256) (random 10)
    → All (λ b. b < 256) (random' 10)
    → create_ulid (natural t) random ≡ returns x
    → create_ulid (natural u) random' ≡ returns y
    → Before x y
create_ulid-Before t u random random' x y h k n n' s s' e e' =
    let (time, r, m, l, _, v, _, d) = decode-create_ulid t random (omega arith) n s in
    let (time', r', m', l', _, v', _, d') = decode-create_ulid u random' k n' s' in
    subst₂ Before (cc) (cc) (
      Before-append time time' r r'
        (Before-of_decode 0 time time' (omega arith) d d' (omega arith)))

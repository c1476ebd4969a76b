-- ===== src/Runtime/Framing/Apart.antt =====
-- What the frame of a challenge keeps apart; see `frameRuntimeChallenge` of
-- apps/orchestrator/src/cloud-run-runtime-service.ts.
use Prim.Native.Char.{Char, code}
use Prim.Native.String.{◌++◌ as ◌<>◌}
use mathlib.Core.List.{append_assoc}
use scribe_drop.Common.{
  ℕ, zero, suc, ◌+◌, ◌-◌, ◌*◌, ◌/◌, ◌%◌, ◌<◌, ◌≡◌, ◌≢◌, refl, sym, ap, ◌∙◌, String, true, false,
  List, [], ◌∷◌, ◌++◌, map, length, length-append, ◌==◌, ltb, arith, Bool-cases, inl, inr,
}
use scribe_drop.Runtime.Framing.{
  decimal_digit, decimal_within, decimal, framed_text, frame_runtime_challenge,
}

-- Reads digits up to a colon: their number, and what follows.
unfoldable read_length : ℕ → List ℕ → ℕ × List ℕ
read_length n [] = (n, [])
read_length n (c ∷ cs) = elim (c == 58) [
  | true ↦ (n, cs)
  | false ↦ read_length (n * 10 + (c - 48)) cs
]

module _ {ℓ} {A : Type ℓ} where
  append_apart :
      (xs ys : List A) {us vs : List A}
      → length xs ≡ length ys
      → xs ++ us ≡ ys ++ vs
      → (xs ≡ ys) × (us ≡ vs)
  append_apart [] [] h e = (refl, e)
  append_apart [] (y ∷ ys) h e = absurd (omega (arith, h))
  append_apart (x ∷ xs) [] h e = absurd (omega (arith, h))
  append_apart (x ∷ xs) (y ∷ ys) h e = grind (arith, append_apart xs ys)

decimal_within-digit : (fuel n : ℕ) → n < 10 → decimal_within (suc fuel) n ≡ decimal_digit n
unfolding decimal_within
decimal_within-digit fuel n h = ground (arith)

decimal_within-more :
    (fuel n : ℕ)
    → 9 < n
    → decimal_within (suc fuel) n ≡ (decimal_within fuel (n / 10) <> decimal_digit (n % 10))
unfolding decimal_within
decimal_within-more fuel n h = ground (arith)

read_length-digit :
    (n d m : ℕ) (rest : List ℕ)
    → d < 10
    → n * 10 + d ≡ m
    → read_length n ((48 + d) ∷ rest) ≡ read_length m rest
unfolding read_length
read_length-digit n d m rest h e = ground (arith, ap (λ k. read_length k rest) e)

nothing : (xs : List ℕ) → length xs ≡ 0 → xs ≡ []
nothing [] h = refl
nothing (x ∷ xs) h = absurd (omega (arith, h))

module _ (encode : String → List ℕ)
    (joined : (s t : String) → encode (s <> t) ≡ encode s ++ encode t)
    (ascii : (c : Char) → code c < 128 → encode (String.◌∷◌ c String.[]) ≡ code c ∷ []) where
  encode-empty : encode "" ≡ []
  encode-empty =
      nothing (encode "")
        (omega (arith, ap length (joined "" ""), length-append (encode "") (encode "")))

  encode-digit : (d : ℕ) → d < 10 → encode (decimal_digit d) ≡ (48 + d) ∷ []
  unfolding decimal_digit
  encode-digit zero h = ascii "0" (omega arith)
  encode-digit (suc zero) h = ascii "1" (omega arith)
  encode-digit (suc (suc zero)) h = ascii "2" (omega arith)
  encode-digit (suc (suc (suc zero))) h = ascii "3" (omega arith)
  encode-digit (suc (suc (suc (suc zero)))) h = ascii "4" (omega arith)
  encode-digit (suc (suc (suc (suc (suc zero))))) h = ascii "5" (omega arith)
  encode-digit (suc (suc (suc (suc (suc (suc zero)))))) h = ascii "6" (omega arith)
  encode-digit (suc (suc (suc (suc (suc (suc (suc zero))))))) h = ascii "7" (omega arith)
  encode-digit (suc (suc (suc (suc (suc (suc (suc (suc zero)))))))) h = ascii "8" (omega arith)
  encode-digit (suc (suc (suc (suc (suc (suc (suc (suc (suc zero))))))))) h =
      ascii "9" (omega arith)
  encode-digit (suc (suc (suc (suc (suc (suc (suc (suc (suc (suc d)))))))))) h =
      absurd (omega arith)

  read_length-decimal_within :
      (fuel n : ℕ) (rest : List ℕ)
      → n < fuel
      → read_length 0 (encode (decimal_within fuel n) ++ rest) ≡ read_length n rest
  read_length-decimal_within zero n rest h = absurd (omega arith)
  read_length-decimal_within (suc fuel) n rest h = elim (Bool-cases (ltb n 10)) [
    | inl small ↦
        rw (decimal_within-digit fuel n (ground arith), encode-digit n (ground arith))
          (read_length-digit 0 n n rest (ground arith) (omega arith))
    | inr large ↦
        let first : 9 < n = ground arith in
        rw
          (
            decimal_within-more fuel n first,
            joined,
            append_assoc,
            read_length-decimal_within fuel (n / 10) (encode (decimal_digit (n % 10)) ++ rest)
                (omega arith),
            encode-digit (n % 10) (omega arith),
            read_length-digit (n / 10) (n % 10) n rest (omega arith) (omega arith),
          )
          refl
  ]

  -- What a field adds in front of the frame of those after it.
  frame-read :
      (field : String) (fields : List String)
      → read_length 0 (frame_runtime_challenge encode (field ∷ fields))
        ≡ (length (encode field), encode field ++ frame_runtime_challenge encode fields)
  unfolding frame_runtime_challenge decimal read_length
  frame-read field fields =
      let n = length (encode field) in
      rw
        (
          joined (decimal n) _,
          read_length-decimal_within (suc n) n _ (omega arith),
          joined ":" _,
          ascii ":" (omega arith),
          joined field _,
        )
        refl

  frame-cons_apart :
      (field : String) (fields : List String)
      → frame_runtime_challenge encode [] ≢ frame_runtime_challenge encode (field ∷ fields)
  unfolding frame_runtime_challenge decimal
  frame-cons_apart field fields e =
      let digits = encode (decimal (length (encode field))) in
      let after = encode (field <> framed_text encode fields) in
      let split : encode "" ≡ digits ++ (58 ∷ after) =
        rw (e, joined (decimal (length (encode field))) _, joined ":" _, ascii ":" (omega arith))
          refl in
      omega (arith, ap length (sym encode-empty ∙ split), length-append digits (58 ∷ after))

  -- Two lists of fields with the same frame have the same fields, as far as the encoder tells texts
  -- apart, where the encoder writes texts one after the other and ASCII characters as themselves.
  pub frame-apart :
      (fs gs : List String)
      → frame_runtime_challenge encode fs ≡ frame_runtime_challenge encode gs
      → map encode fs ≡ map encode gs
  frame-apart [] [] e = refl
  frame-apart [] (g ∷ gs) e = absurd (frame-cons_apart g gs e)
  frame-apart (f ∷ fs) [] e = absurd (frame-cons_apart f fs (sym e))
  frame-apart (f ∷ fs) (g ∷ gs) e =
      let same = sym (frame-read f fs) ∙ ap (read_length 0) e ∙ frame-read g gs in
      let (here, rest) =
        append_apart (encode f) (encode g) (ap (λ r. r.0) same) (ap (λ r. r.1) same) in
      cc (here, frame-apart fs gs rest)

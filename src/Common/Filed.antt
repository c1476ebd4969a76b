-- ===== src/Common/Filed.antt =====
-- Entries of a map that stand under their values' own names, each once.
use text.Mathlib.TextEquality.{eq_iff}
use Prim.Native.String.{String}
use mathlib.Core.Path.{◌≡◌, refl, subst}
use mathlib.Core.Logic.{inl, inr}
use mathlib.Core.Bool.{false}
use mathlib.Core.List.{List, [], ◌∷◌}
use mathlib.Core.Option.{none, some}
use native.Mathlib.Omega.{arith}
use scribe_drop.Common.Tests.{◌is◌, is_iff, Bool-cases}
use scribe_drop.Common.Lists.{All}
use scribe_drop.Common.Assoc.{lookup, put, values, lookup-put}

module _ {ℓ} {V : Type ℓ} (name : V → String) where
  abbrev pub Filed : List (String × V) → Type ℓ
  Filed [] = Unit {ℓ}
  Filed ((k, x) ∷ m) = (name x ≡ k) × (lookup k m ≡ none) × Filed m

  lookup_missing :
      (j k : String) (x : V) (m : List (String × V))
      → (k is j) ≡ false
      → lookup j m ≡ none
      → lookup j (put k x m) ≡ none
  lookup_missing j k x m ne e = rw (lookup-put k j x m, ne) e

  pub put-Filed :
      (k : String) (x : V) (m : List (String × V)) → name x ≡ k → Filed m → Filed (put k x m)
  unfolding lookup put
  put-Filed k x [] e f = (e, refl, tt)
  put-Filed k x ((j, y) ∷ m) e (own, once, f) = elim (Bool-cases (j is k)) [
    | inl same ↦ rw (same, put) (e, rw ((is_iff j k).0 same) at once, f)
    | inr other ↦
        rw (other, put)
          (
            own,
            lookup_missing j k x m (ground (arith, eq_iff j k, eq_iff k j)) once,
            put-Filed k x m e f,
          )
  ]

  pub lookup-Filed :
      (k : String) (x : V) (m : List (String × V)) → Filed m → lookup k m ≡ some x → name x ≡ k
  unfolding lookup
  lookup-Filed k x [] f e = cc
  lookup-Filed k x ((j, y) ∷ m) (own, once, f) e = elim (Bool-cases (j is k)) [
    | inl same ↦ ground (arith, eq_iff j k)
    | inr other ↦ lookup-Filed k x m f (ground arith)
  ]

  skip_first :
      (j : String) (y : V) (m : List (String × V)) (xs : List V)
      → lookup j m ≡ none
      → All (λ x. lookup (name x) m ≡ some x) xs
      → All (λ x. lookup (name x) ((j, y) ∷ m) ≡ some x) xs
  unfolding lookup
  skip_first j y m [] e a = tt
  skip_first j y m (x ∷ xs) e (p, a) = (
    elim (Bool-cases (j is name x)) [
      | inl same ↦ absurd (cc (e, p, (is_iff j (name x)).0 same))
      | inr other ↦ rw (other, lookup) p
    ],
    skip_first j y m xs e a,
  )

  -- Every stored record is the one that its handle finds.
  pub values-Filed :
      (m : List (String × V)) → Filed m → All (λ x. lookup (name x) m ≡ some x) (values m)
  unfolding lookup
  values-Filed [] f = tt
  values-Filed ((j, y) ∷ m) (own, once, f) =
      (ground (arith, eq_iff j (name y)), skip_first j y m (values m) once (values-Filed m f))

module _ {ℓ κ} {V : Type ℓ} (P : V → Type κ) where
  pub lookup-All :
      (k : String) (x : V) (m : List (String × V)) → All P (values m) → lookup k m ≡ some x → P x
  unfolding lookup
  lookup-All k x [] a e = absurd (cc)
  lookup-All k x ((j, y) ∷ m) (p, a) e = elim (Bool-cases (j is k)) [
    | inl same ↦ subst P (ground arith) p
    | inr other ↦ lookup-All k x m a (ground arith)
  ]

  pub put-All :
      (k : String) (x : V) (m : List (String × V))
      → P x
      → All P (values m)
      → All P (values (put k x m))
  unfolding put
  put-All k x [] p a = (p, tt)
  put-All k x ((j, y) ∷ m) p (q, a) = elim (Bool-cases (j is k)) [
    | inl same ↦ rw (same, put) (p, a)
    | inr other ↦ rw (other, put) (q, put-All k x m p a)
  ]

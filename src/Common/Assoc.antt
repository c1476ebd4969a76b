-- ===== src/Common/Assoc.antt =====
-- A `Map` with text keys, as the list of its entries in the order of their first insertion.
use Prim.Native.String.{String}
use text.Mathlib.TextEquality.{eq_iff}
use mathlib.Core.Path.{◌≡◌, refl}
use mathlib.Core.Bool.{true, false}
use mathlib.Core.List.{List, [], ◌∷◌, ◌++◌}
use mathlib.Core.Option.{Option, none, some}
use native.Mathlib.Omega.{arith}
use scribe_drop.Common.Tests.{◌is◌, if◌then◌else◌}

module _ {ℓ} {V : Type ℓ} where
  unfoldable pub lookup : String → List (String × V) → Option V
  lookup k [] = none
  lookup k ((j, v) ∷ m) = if j is k then some v else lookup k m

  unfoldable pub put : String → V → List (String × V) → List (String × V)
  put k v [] = (k, v) ∷ []
  put k v ((j, w) ∷ m) = if j is k then (k, v) ∷ m else (j, w) ∷ put k v m

  abbrev pub values : List (String × V) → List V
  values [] = []
  values ((k, v) ∷ m) = v ∷ values m

  pub lookup-put :
      (k j : String) (v : V) (m : List (String × V))
      → lookup j (put k v m) ≡ (if k is j then some v else lookup j m)
  unfolding lookup put
  lookup-put k j v [] = refl
  lookup-put k j v ((i, w) ∷ m) =
      ground (arith, eq_iff k j, eq_iff i k, eq_iff i j, lookup-put k j v m)

  pub lookup-put_same :
      (k j : String) (v : V) (m : List (String × V))
      → (k is j) ≡ true
      → lookup j (put k v m) ≡ some v
  lookup-put_same k j v m e = ground (arith, lookup-put k j v m)

  pub lookup-put_other :
      (k j : String) (v : V) (m : List (String × V))
      → (k is j) ≡ false
      → lookup j (put k v m) ≡ lookup j m
  lookup-put_other k j v m e = ground (arith, lookup-put k j v m)

module _ {ℓ κ} {V : Type ℓ} {W : Type κ} (f : V → W) where
  -- The map with every value taken through `f`.
  abbrev pub on_values : List (String × V) → List (String × W)
  on_values [] = []
  on_values ((k, v) ∷ m) = (k, f v) ∷ on_values m

  abbrev pub on_some : Option V → Option W
  on_some none = none
  on_some (some v) = some (f v)

  pub lookup-on_values :
      (k : String) (m : List (String × V)) → lookup k (on_values m) ≡ on_some (lookup k m)
  unfolding lookup
  lookup-on_values k [] = refl
  lookup-on_values k ((j, v) ∷ m) = ground (arith, lookup-on_values k m)

  pub put-on_values :
      (k : String) (v : V) (m : List (String × V))
      → put k (f v) (on_values m) ≡ on_values (put k v m)
  unfolding put
  put-on_values k v [] = refl
  put-on_values k v ((j, w) ∷ m) = ground (arith, put-on_values k v m)

module _ {ℓ} {V : Type ℓ} where
  -- A new key comes last.
  pub values-put_new :
      (k : String) (v : V) (m : List (String × V))
      → lookup k m ≡ none
      → values (put k v m) ≡ values m ++ (v ∷ [])
  unfolding lookup put
  values-put_new k v [] e = refl
  values-put_new k v ((j, w) ∷ m) e = ground (arith, values-put_new k v m)

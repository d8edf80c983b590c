-- ===== src/Base/Dict.antt =====
-- Go maps with string keys, as association lists. A read of a missing key gives the zero value.
use mathlib.Core.Path.{◌≡◌, refl}
use mathlib.Core.Bool.{Bool, true, false}
use mathlib.Core.Option.{Option, none, some}
use mathlib.Core.List.{List, [], ◌∷◌}
use Prim.Native.String.{String}
use native.Mathlib.Omega.{arith}
use kube_overlay_operator.Base.Tests.{if◌then◌else◌}
use kube_overlay_operator.Base.Strings.{◌==◌}

abbrev pub Dict {ℓ} : Type ℓ → Type ℓ
Dict V = List (String × V)

module _ {ℓ} {V : Type ℓ} where
  abbrev pub lookup : String → Dict V → Option V
  lookup k [] = none
  lookup k ((j, v) ∷ m) = if j == k then some v else lookup k m

  abbrev pub insert : String → V → Dict V → Dict V
  insert k v [] = (k, v) ∷ []
  insert k v ((j, w) ∷ m) = if j == k then (k, v) ∷ m else (j, w) ∷ insert k v m

  abbrev pub get_or : Option V → V → V
  get_or none d = d
  get_or (some v) d = v

  -- `m[k]`
  abbrev pub get : V → String → Dict V → V
  get d k m = get_or (lookup k m) d

  -- `_, ok := m[k]`
  abbrev pub has : String → Dict V → Bool
  has k [] = false
  has k ((j, v) ∷ m) = if j == k then true else has k m

  -- `for k := range m { m[k] = f(k, m[k]) }`
  abbrev pub map_entries : (String → V → V) → Dict V → Dict V
  map_entries f [] = []
  map_entries f ((k, v) ∷ m) = (k, f k v) ∷ map_entries f m

  abbrev pub keys : Dict V → List String
  keys [] = []
  keys ((k, v) ∷ m) = k ∷ keys m

module _ {ℓ} {V : Type ℓ} where
  pub lookup-insert :
      (j k : String) (v : V) (m : Dict V)
      → lookup j (insert k v m) ≡ (if k == j then some v else lookup j m)
  lookup-insert j k v [] = refl
  lookup-insert j k v ((i, w) ∷ m) = ground (arith, lookup-insert j k v m)

  pub lookup-map_entries :
      (f : String → V → V) (j : String) (m : Dict V) (v : V)
      → lookup j m ≡ some v
      → lookup j (map_entries f m) ≡ some (f j v)
  lookup-map_entries f j ((k, w) ∷ m) v h = ground (arith, lookup-map_entries f j m v)
  lookup-map_entries f j [] v h = ground arith

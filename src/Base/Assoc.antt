-- ===== src/Base/Assoc.antt =====
-- Go maps: with text keys as association lists, and the heap as functions of a reference.
use Prim.Native.Nat.{ℕ}
use Prim.Native.String.{String}
use mathlib.Core.Path.{◌≡◌, refl}
use mathlib.Core.List.{List, [], ◌∷◌}
use mathlib.Core.Option.{Option, none, some}
use native.Mathlib.Omega.{arith}
use text.Mathlib.Text.{◌==◌ as str_eq}
use text.Mathlib.TextEquality.{eq_iff}
use agmux.Base.Tests.{◌==◌, if◌then◌else◌}

abbrev pub update {ℓ} : {A : Type ℓ} → (ℕ → A) → ℕ → A → ℕ → A
update f k v j = if k == j then v else f j

-- The order of the entries carries no meaning: Go's map has none.
module _ {ℓ} {V : Type ℓ} where
  -- delete(m, key)
  unfoldable pub erase : String → List (String × V) → List (String × V)
  erase key [] = []
  erase key (e ∷ entries) =
      let others = erase key entries in if str_eq e.0 key then others else e ∷ others

  -- m[key] = value
  unfoldable pub insert : String → V → List (String × V) → List (String × V)
  unfolding erase
  insert key value entries = (key, value) ∷ erase key entries

  -- value, ok := m[key]
  unfoldable pub lookup : String → List (String × V) → Option V
  lookup key [] = none
  lookup key (e ∷ entries) = if str_eq e.0 key then some e.1 else lookup key entries

  pub lookup-nil : (key : String) → lookup key [] ≡ none
  unfolding lookup
  lookup-nil key = refl

  pub lookup-erase :
      (key other : String) (entries : List (String × V))
      → lookup other (erase key entries) ≡ (if str_eq key other then none else lookup other entries)
  unfolding erase lookup
  lookup-erase key other [] = ground arith
  lookup-erase key other (e ∷ entries) =
      ground
        (arith, lookup-erase key other entries, eq_iff e.0 key, eq_iff e.0 other, eq_iff key other)

  pub lookup-insert :
      (key other : String) (value : V) (entries : List (String × V))
      → lookup other (insert key value entries)
        ≡ (if str_eq key other then some value else lookup other entries)
  unfolding insert lookup
  lookup-insert key other value entries = simp lookup-erase (ground arith)

pub ruleset map_laws = (lookup-nil, lookup-erase, lookup-insert)

-- ===== src/Base/Members.antt =====
-- Sets of numbered connections, as lists: delete of one, and Close of every one in another set.
use Prim.Native.Nat.{ℕ}
use mathlib.Core.Path.{◌≡◌, ◌∙◌}
use mathlib.Core.Logic.{inl, inr}
use mathlib.Core.Bool.{false}
use mathlib.Core.List.{List, [], ◌∷◌}
use native.Mathlib.Omega.{arith}
use agmux.Base.Tests.{◌==◌, ==_iff, Bool-cases, if◌then◌else◌}
use agmux.Base.Texts.{contains}

unfoldable pub without : ℕ → List ℕ → List ℕ
without c [] = []
without c (d ∷ ds) = let rest = without c ds in if c == d then rest else d ∷ rest

-- Close of every connection in the list.
unfoldable pub close_conns : List ℕ → List ℕ → List ℕ
unfolding contains
close_conns conns [] = []
close_conns conns (d ∷ ds) =
    let rest = close_conns conns ds in if contains conns d then rest else d ∷ rest

pub contains-without :
    (c d : ℕ) (xs : List ℕ) → contains (without c xs) d ≡ (if c == d then false else contains xs d)
unfolding without contains
contains-without c d [] = ground arith
contains-without c d (x ∷ xs) = ground (arith, contains-without c d xs)

pub contains-close_conns :
    (conns : List ℕ) (d : ℕ) (xs : List ℕ)
    → contains (close_conns conns xs) d ≡ (if contains conns d then false else contains xs d)
unfolding close_conns contains
contains-close_conns conns d [] = ground arith
contains-close_conns conns d (x ∷ xs) = elim (Bool-cases (d == x)) [
  | inl e ↦ elim (Bool-cases (contains conns x)) [
    | inl f ↦ rw (f, e) (contains-close_conns conns d xs ∙ ground (arith, f, (==_iff d x).0 e))
    | inr f ↦ rw (f, e) (ground (arith, f, (==_iff d x).0 e))
  ]
  | inr e ↦ elim (Bool-cases (contains conns x)) [
    | inl f ↦ rw (f, e) (contains-close_conns conns d xs)
    | inr f ↦ rw (f, e) (contains-close_conns conns d xs)
  ]
]

-- ===== src/Forward/Prefix.antt =====
-- Closing a forward by an id or by a prefix of one.
use agmux.Base.{
  ◌≤◌, String, ◌≡◌, ◌⊎◌, inl, inr, refl, Option, none, some, true, List, [], ◌∷◌, if◌then◌else◌,
  lookup, lookup-erase, str_eq, eq_iff, arith, Bool-cases, All,
}
use text.Mathlib.Text.{starts_with}
use agmux.Forward.{Forwarder}
use agmux.Forward.Service.{
  Service, matches, Closed, closed, id_required, not_found, ambiguous, one_match, find_forward,
  close_found, close_by, close_forward,
}

abbrev In : String → List String → Type 0
In k [] = ⊥
In k (x ∷ xs) = (x ≡ k) ⊎ In k xs

-- What the entries say of an id.
abbrev Fits : String → List (String × Forwarder) → String → Type 0
Fits prefix es x = ((f : Forwarder) × (lookup x es ≡ some f)) × (starts_with x prefix ≡ true)

lookup_cons :
    (e : String × Forwarder) (es : List (String × Forwarder)) (x : String)
    → lookup x (e ∷ es) ≡ (if str_eq e.0 x then some e.1 else lookup x es)
unfolding lookup
lookup_cons e es x = refl

Fits-cons :
    (prefix : String) (e : String × Forwarder) (es : List (String × Forwarder)) (x : String)
    → Fits prefix es x
    → Fits prefix (e ∷ es) x
Fits-cons prefix e es x ((f, k), h) = elim (Bool-cases (str_eq e.0 x)) [
  | inl q ↦ ((e.1, rw (lookup_cons e es x, q)), h)
  | inr q ↦ ((f, rw (lookup_cons e es x, q) k), h)
]

All-Fits-cons :
    (prefix : String) (e : String × Forwarder) (es : List (String × Forwarder)) (xs : List String)
    → All (Fits prefix es) xs
    → All (Fits prefix (e ∷ es)) xs
All-Fits-cons prefix e es [] h = tt
All-Fits-cons prefix e es (x ∷ xs) (h, hs) =
    (Fits-cons prefix e es x h, All-Fits-cons prefix e es xs hs)

Fits-head :
    (prefix : String) (e : String × Forwarder) (es : List (String × Forwarder))
    → starts_with e.0 prefix ≡ true
    → Fits prefix (e ∷ es) e.0
Fits-head prefix e es h = ((e.1, rw (lookup_cons e es e.0, (eq_iff e.0 e.0).1 refl)), h)

matches_sound :
    (prefix : String) (es : List (String × Forwarder)) → All (Fits prefix es) (matches prefix es)
unfolding matches
matches_sound prefix [] = tt
matches_sound prefix (e ∷ es) = elim (Bool-cases (starts_with e.0 prefix)) [
  | inl q ↦ rw q (
    Fits-head prefix e es q,
    All-Fits-cons prefix e es (matches prefix es) (matches_sound prefix es),
  )
  | inr q ↦ rw q (All-Fits-cons prefix e es (matches prefix es) (matches_sound prefix es))
]

matches_complete :
    (prefix : String) (es : List (String × Forwarder)) (x : String)
    → Fits prefix es x
    → In x (matches prefix es)
unfolding matches
matches_complete prefix [] x h = unfold lookup in cc (h.0.1)
matches_complete prefix (e ∷ es) x ((f, k), h) = elim (Bool-cases (str_eq e.0 x)) [
  | inl q ↦
      let same : e.0 ≡ x = (eq_iff e.0 x).0 q in
      let s : starts_with e.0 prefix ≡ true = rw same h in rw s (inl same)
  | inr q ↦
      let tail : lookup x es ≡ some f = rw (lookup_cons e es x, q) at k in
      let rest = matches_complete prefix es x ((f, tail), h) in
      elim (Bool-cases (starts_with e.0 prefix)) [ inl s ↦ rw s (inr rest) | inr s ↦ rw s rest ]
]

only : (x y : String) → In y (x ∷ []) → x ≡ y
only x y (inl e) = e
only x y (inr h) = absurd h

-- What Close may answer, and what it leaves.
abbrev pub Answers : String → Service → Service × Closed → Type 0
Answers id s (s', closed x) =
    ((f : Forwarder) × (lookup x s.forwards ≡ some f))
    × ((x ≡ id)
        ⊎ ((lookup id s.forwards ≡ none)
            × (starts_with x id ≡ true)
            × ((y : String) → Fits id s.forwards y → x ≡ y)))
    × ((k : String) → lookup k s'.forwards ≡ (if str_eq x k then none else lookup k s.forwards))
Answers id s (s', id_required) = (id ≡ "") × (s' ≡ s)
Answers id s (s', not_found) =
    (lookup id s.forwards ≡ none) × ((y : String) → ¬ Fits id s.forwards y) × (s' ≡ s)
Answers id s (s', ambiguous n) =
    (lookup id s.forwards ≡ none) × (2 ≤ n) × ((x : String) × Fits id s.forwards x) × (s' ≡ s)

close_found-lookup :
    (o : Option Forwarder) (x : String) (s : Service) (f : Forwarder)
    → o ≡ some f
    → (k : String)
    → lookup k (close_found o x s).forwards ≡ (if str_eq x k then none else lookup k s.forwards)
unfolding close_found
close_found-lookup none x s f e k = cc
close_found-lookup (some g) x s f e k = lookup-erase x k s.forwards

one_match-Answers :
    (id : String) (s : Service) (xs : List String)
    → lookup id s.forwards ≡ none
    → matches id s.forwards ≡ xs
    → Answers id s (close_by (one_match xs) s)
unfolding one_match close_by
one_match-Answers id s [] none_there e =
    (none_there, λ y h. rw e at (matches_complete id s.forwards y h), refl)
one_match-Answers id s (x ∷ []) none_there e =
    let (((f, k), fits), _) = rw e at (matches_sound id s.forwards) in
    (
      (f, k),
      inr (none_there, fits, λ y h. only x y (rw e at (matches_complete id s.forwards y h))),
      close_found-lookup (lookup x s.forwards) x s f k,
    )
one_match-Answers id s (x ∷ y ∷ xs) none_there e =
    let (h, _) = rw e at (matches_sound id s.forwards) in (none_there, omega arith, (x, h), refl)

found-Answers :
    (id : String) (s : Service) (o : Option Forwarder)
    → lookup id s.forwards ≡ o
    → Answers id s
        (close_by (elim o [ some f ↦ closed id | none ↦ one_match (matches id s.forwards) ]) s)
found-Answers id s none e = one_match-Answers id s (matches id s.forwards) e refl
found-Answers id s (some f) e =
    unfold close_by in ((f, e), inl refl, close_found-lookup (lookup id s.forwards) id s f e)

-- Close answers `closed x` for a registered `x` that is the id itself or, if the id is not
-- registered, the only registered id that it is a prefix of, and then exactly `x` is gone from the
-- registry; otherwise nothing changes, and the id is empty, fits no registered id, or fits one
-- among at least two matches.
pub close_forward-Answers : (id : String) (s : Service) → Answers id s (close_forward id s)
unfolding close_forward find_forward
close_forward-Answers id s = elim (Bool-cases (str_eq id "")) [
  | inl e ↦ rw e ((eq_iff id "").0 e, refl)
  | inr e ↦ rw e (found-Answers id s (lookup id s.forwards) refl)
]

-- ===== src/Transfer/Lexical/Local.antt =====
-- What checkPathTraversal accepts.
use agmux.Base.{
  ℕ, zero, suc, ◌≡◌, ◌≢◌, ◌↔◌, ◌∙◌, ◌⊎◌, inl, inr, refl, sym, none, Bool, true, false, not, ◌||◌,
  List, [], ◌∷◌, Bytes, arith, Bool-cases,
}
use agmux.Transfer.{
  split_path, join_path, is_skipped, is_up, starts_up, is_rooted, clean_parts, or_dot, clean,
  clean_rel_path, has_dots, lexical, is_local_path, check_path_traversal,
}
use agmux.Transfer.Lexical.Splits.{first_up, leads_up}
use agmux.Transfer.Lexical.Cleans.{stays, stays-IsBelow, leaves_up}
use agmux.Transfer.Lexical.{first_below, up_parts, parts-IsKept, clean_rel_path-stays}

no_dots :
    (part : Bytes) (parts : List Bytes)
    → has_dots (part ∷ parts) ≡ false
    → (is_up part ≡ false)
      × (has_dots parts ≡ false)
      × ((is_skipped part ≡ true) ⊎ (is_skipped part ≡ false))
unfolding has_dots
no_dots [] parts h = (unfold is_up in refl, h, inl (unfold is_skipped in refl))
no_dots (c ∷ s) parts h = (ground (arith, h), ground (arith, h), inr (ground (arith, h)))

undotted : (depth : ℕ) (parts : List Bytes) → has_dots parts ≡ false → stays depth parts ≡ true
unfolding stays
undotted depth [] h = refl
undotted zero (part ∷ parts) h =
    let (below, rest, kind) = no_dots part parts h in
    elim kind [
      | inl e ↦ rw e (undotted zero parts rest)
      | inr e ↦ rw (e, below) (undotted 1 parts rest)
    ]
undotted (suc depth) (part ∷ parts) h =
    let (below, rest, kind) = no_dots part parts h in
    elim kind [
      | inl e ↦ rw e (undotted (suc depth) parts rest)
      | inr e ↦ rw (e, below) (undotted (suc (suc depth)) parts rest)
    ]

undotted_below : (parts : List Bytes) → has_dots parts ≡ false → first_up parts ≡ false
unfolding first_up
undotted_below [] h = refl
undotted_below (part ∷ parts) h = (no_dots part parts h).0

cleaned_up :
    (s : Bytes)
    → is_rooted s ≡ false
    → (is_up (clean s) || starts_up (clean s)) ≡ not (stays 0 (split_path s))
unfolding clean
cleaned_up s plain = elim (Bool-cases (stays 0 (split_path s))) [
  | inl t ↦
      rw
        (
          plain,
          leads_up (or_dot (join_path (clean_parts false [] (split_path s)))),
          up_parts _ (parts-IsKept false s),
          t,
        )
        (first_below _ (stays-IsBelow [] (split_path s) tt t))
  | inr t ↦
      rw
        (
          plain,
          leads_up (or_dot (join_path (clean_parts false [] (split_path s)))),
          up_parts _ (parts-IsKept false s),
          t,
        )
        (leaves_up [] (split_path s) tt t)
]

not-not : (b : Bool) → not (not b) ≡ b
not-not true = refl
not-not false = refl

lexical_up :
    (s : Bytes)
    → is_rooted s ≡ false
    → (is_up (lexical s) || starts_up (lexical s)) ≡ not (stays 0 (split_path s))
unfolding lexical
lexical_up s plain = elim (Bool-cases (has_dots (split_path s))) [
  | inl e ↦ rw e (cleaned_up s plain)
  | inr e ↦ rw (e, leads_up s, undotted_below _ e, undotted 0 (split_path s) e) refl
]

is_local_path-stays :
    (c : ℕ) (s : Bytes)
    → is_rooted (c ∷ s) ≡ false
    → is_local_path (c ∷ s) ≡ stays 0 (split_path (c ∷ s))
unfolding is_local_path
is_local_path-stays c s plain =
    rw (plain, lexical_up (c ∷ s) plain) (not-not (stays 0 (split_path (c ∷ s))))

rooted_not_local : (c : ℕ) (s : Bytes) → is_local_path (c ∷ s) ≡ true → is_rooted (c ∷ s) ≡ true → ⊥
unfolding is_local_path
rooted_not_local c s h e = cc (rw e at h)

-- The walk of a download lets a name pass exactly if it is not empty, not rooted, and cleanRelPath
-- accepts it.
pub check_path_traversal-clean_rel_path :
    (s : Bytes)
    → (check_path_traversal s ≡ true)
      ↔ ((s ≢ []) × (is_rooted s ≡ false) × (clean_rel_path s ≢ none))
unfolding check_path_traversal
check_path_traversal-clean_rel_path [] =
    (λ h. unfold is_local_path in cc h, λ (full, plain, ok). absurd (full refl))
check_path_traversal-clean_rel_path (c ∷ s) = elim (Bool-cases (is_rooted (c ∷ s))) [
  | inl e ↦ (λ h. absurd (rooted_not_local c s h e), λ (full, plain, ok). cc (e, plain))
  | inr e ↦ (
    λ h. (
      λ k. cc k,
      e,
      (clean_rel_path-stays (c ∷ s)).1 (inr (sym (is_local_path-stays c s e) ∙ h)),
    ),
    λ (full, plain, ok). elim ((clean_rel_path-stays (c ∷ s)).0 ok) [
      | inl r ↦ cc (r, e)
      | inr t ↦ is_local_path-stays c s e ∙ t
    ],
  )
]

-- ===== src/Transfer/Lexical.antt =====
-- Which relative paths are accepted.
pub mod Splits
pub mod Cleans
pub mod Local
use agmux.Base.{
  ℕ, zero, suc, ◌+◌, ◌≡◌, ◌≢◌, ◌↔◌, ◌∙◌, ◌⊎◌, inl, inr, refl, sym, ap, Option, none, some, Bool,
  true, false, not, ◌==◌, ◌&&◌, ◌||◌, List, [], ◌∷◌, ◌++◌, if◌then◌else◌, Bytes, length, All,
  contains, arith, Bool-cases,
}
use agmux.Transfer.{
  push_byte, split_path, join_path, is_skipped, is_up, starts_up, is_rooted, up, climb, clean_part,
  backwards, clean_parts, or_dot, clean, rel_of, clean_rel_path, has_dots, lexical, is_local_path,
  check_path_traversal,
}
use agmux.Transfer.Lexical.Splits.{IsFree, split_path-All, split_path-join_path, first_up, leads_up}
use agmux.Transfer.Lexical.Cleans.{
  stays, IsKept, IsBelow, clean_parts-All, rooted-IsBelow, stays-IsBelow, leaves_up,
}

-- What cleanRelPath and IsLocal make of the parts that Clean keeps.
has_start : (part s : Bytes) → is_skipped part ≡ false → is_skipped (part ++ b'/' ∷ s) ≡ false
unfolding is_skipped
has_start [] s h = cc h
has_start (c ∷ []) s h = refl
has_start (c ∷ d ∷ part) s h = refl

is_skipped-join_path :
    (part : Bytes) (parts : List Bytes)
    → is_skipped part ≡ false
    → is_skipped (join_path (part ∷ parts)) ≡ false
unfolding join_path
is_skipped-join_path part [] h = h
is_skipped-join_path part (next ∷ parts) h = has_start part (join_path (next ∷ parts)) h

or_dot-full : (s : Bytes) → is_skipped s ≡ false → or_dot s ≡ s
unfolding or_dot is_skipped
or_dot-full [] h = cc h
or_dot-full (c ∷ s) h = refl

kept-IsFree : (parts : List Bytes) → All IsKept parts → All IsFree parts
unfolding IsKept IsFree
kept-IsFree [] all = tt
kept-IsFree (part ∷ parts) ((_, free), all) = (free, kept-IsFree parts all)

rejoin :
    (part : Bytes) (parts : List Bytes)
    → All IsKept (part ∷ parts)
    → split_path (join_path (part ∷ parts)) ≡ part ∷ parts
rejoin part parts all = split_path-join_path part parts (kept-IsFree (part ∷ parts) all)

rel_of_parts :
    (parts : List Bytes)
    → All IsKept parts
    → rel_of (or_dot (join_path parts)) ≡ (if first_up parts then none else some (join_path parts))
unfolding rel_of
rel_of_parts [] all = unfold or_dot join_path is_skipped first_up in refl
rel_of_parts (part ∷ parts) (p, all) =
    let full = is_skipped-join_path part parts (unfold IsKept in p.0) in
    rw (or_dot-full _ full, full, leads_up (join_path (part ∷ parts)), rejoin part parts (p, all))
      refl

pub up_parts :
    (parts : List Bytes)
    → All IsKept parts
    → first_up (split_path (or_dot (join_path parts))) ≡ first_up parts
up_parts [] all = unfold or_dot join_path split_path first_up is_up push_byte in refl
up_parts (part ∷ parts) (p, all) =
    let full = is_skipped-join_path part parts (unfold IsKept in p.0) in
    rw (or_dot-full _ full, rejoin part parts (p, all)) refl

pub parts-IsKept : (rooted : Bool) (s : Bytes) → All IsKept (clean_parts rooted [] (split_path s))
parts-IsKept rooted s = clean_parts-All rooted [] (split_path s) tt (split_path-All s)

clean_rel_path_plain :
    (s : Bytes)
    → is_rooted s ≡ false
    → let parts = clean_parts false [] (split_path s) in
      clean_rel_path s ≡ (if first_up parts then none else some (join_path parts))
unfolding clean_rel_path clean
clean_rel_path_plain s h = rw h (rel_of_parts _ (parts-IsKept false s))

rooted_rel : (s : Bytes) → rel_of (b'/' ∷ s) ≡ some (b'/' ∷ s)
unfolding rel_of is_skipped is_up starts_up
rooted_rel [] = refl
rooted_rel (c ∷ []) = refl
rooted_rel (c ∷ d ∷ s) = refl

clean_rel_path_rooted :
    (s : Bytes)
    → is_rooted s ≡ true
    → clean_rel_path s ≡ some (b'/' ∷ join_path (clean_parts true [] (split_path s)))
unfolding clean_rel_path clean rel_of
clean_rel_path_rooted s h = rw h (rooted_rel (join_path (clean_parts true [] (split_path s))))

pub first_below : (parts : List Bytes) → All IsBelow parts → first_up parts ≡ false
unfolding first_up IsBelow
first_below [] all = refl
first_below (part ∷ parts) (p, all) = p

split_names :
    (parts : List Bytes)
    → All IsKept parts
    → All IsBelow parts
    → All IsBelow (split_path (join_path parts))
split_names [] all below = unfold IsBelow split_path join_path is_up in (refl, tt)
split_names (part ∷ parts) all below = rw (rejoin part parts all) below

rooted_names :
    (parts : List Bytes)
    → All IsKept parts
    → All IsBelow parts
    → All IsBelow (split_path (b'/' ∷ join_path parts))
rooted_names parts all below =
    let rest = split_names parts all below in unfold split_path IsBelow is_up in (refl, rest)

-- A path that is not rooted, by the walk.
plain_stays :
    (s : Bytes)
    → is_rooted s ≡ false
    → stays 0 (split_path s) ≡ true
    → let parts = clean_parts false [] (split_path s) in
      All IsBelow parts × (clean_rel_path s ≡ some (join_path parts))
plain_stays s plain h =
    let below = stays-IsBelow [] (split_path s) tt h in
    (below, rw (clean_rel_path_plain s plain, first_below _ below) refl)

plain_leaves :
    (s : Bytes) → is_rooted s ≡ false → stays 0 (split_path s) ≡ false → clean_rel_path s ≡ none
plain_leaves s plain h = rw (clean_rel_path_plain s plain, leaves_up [] (split_path s) tt h) refl

-- An accepted path has no part "..".
pub clean_rel_path-IsBelow :
    (s rel : Bytes) → clean_rel_path s ≡ some rel → All IsBelow (split_path rel)
clean_rel_path-IsBelow s rel h = elim (Bool-cases (is_rooted s)) [
  | inl e ↦
      (let same : b'/' ∷ join_path (clean_parts true [] (split_path s)) ≡ rel =
          cc (rw (clean_rel_path_rooted s e) at h) in
        rw (← same) (rooted_names _ (parts-IsKept true s) (rooted-IsBelow [] (split_path s) tt)))
  | inr e ↦ elim (Bool-cases (stays 0 (split_path s))) [
    | inl t ↦
        (let (below, accepted) = plain_stays s e t in
          let same : join_path (clean_parts false [] (split_path s)) ≡ rel = cc in
          rw (← same) (split_names _ (parts-IsKept false s) below))
    | inr t ↦ absurd (cc (plain_leaves s e t, h))
  ]
]

-- cleanRelPath accepts a path exactly if it is rooted or a walk along its parts never leaves the root.
pub clean_rel_path-stays :
    (s : Bytes)
    → (clean_rel_path s ≢ none) ↔ ((is_rooted s ≡ true) ⊎ (stays 0 (split_path s) ≡ true))
clean_rel_path-stays s = (
  λ h. elim (Bool-cases (is_rooted s)) [
    | inl e ↦ inl e
    | inr e ↦ elim (Bool-cases (stays 0 (split_path s))) [
      | inl t ↦ inr t
      | inr t ↦ absurd (h (plain_leaves s e t))
    ]
  ],
  λ ok h. elim (Bool-cases (is_rooted s)) [
    | inl e ↦ cc (clean_rel_path_rooted s e, h)
    | inr e ↦ elim ok [
      | inl r ↦ cc (r, e)
      | inr t ↦ let (below, accepted) = plain_stays s e t in cc (accepted, h)
    ]
  ],
)

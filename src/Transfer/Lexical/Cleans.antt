-- ===== src/Transfer/Lexical/Cleans.antt =====
-- Which parts Clean keeps, by a walk that counts how far below the root it stands.
use agmux.Base.{
  ℕ, zero, suc, ◌≡◌, inl, inr, refl, Bool, true, false, List, [], ◌∷◌, ◌++◌, if◌then◌else◌, Bytes,
  length, All, contains, Bool-cases,
}
use agmux.Transfer.{is_skipped, is_up, up, climb, clean_part, backwards, clean_parts}
use agmux.Transfer.Lexical.Splits.{IsFree, first_up}

-- Whether a walk along the parts from `depth` names below the root never leaves it.
unfoldable pub stays : ℕ → List Bytes → Bool
unfolding is_skipped is_up
stays depth [] = true
stays zero (part ∷ parts) =
    if is_skipped part then stays zero parts else if is_up part then false else stays 1 parts
stays (suc depth) (part ∷ parts) =
    if is_skipped part
    then stays (suc depth) parts
    else if is_up part
    then stays depth parts
    else stays (suc (suc depth)) parts

-- What Clean makes of the parts, from any parts kept.
unfoldable pub IsKept : Bytes → Type 0
IsKept part = (is_skipped part ≡ false) × (contains part b'/' ≡ false)

unfoldable pub IsBelow : Bytes → Type 0
IsBelow part = is_up part ≡ false

up-IsKept : IsKept up
unfolding IsKept is_skipped contains
up-IsKept = (refl, refl)

module _ {ℓ} (P : Bytes → Type ℓ) where
  backwards-All : (kept done : List Bytes) → All P kept → All P done → All P (backwards kept done)
  unfolding backwards
  backwards-All [] done all more = more
  backwards-All (part ∷ kept) done (p, all) more = backwards-All kept (part ∷ done) all (p, more)

climb-All : (rooted : Bool) (kept : List Bytes) → All IsKept kept → All IsKept (climb rooted kept)
unfolding climb
climb-All true [] all = tt
climb-All false [] all = (up-IsKept, tt)
climb-All rooted (part ∷ kept) (p, all) = elim (Bool-cases (is_up part)) [
  | inl e ↦ rw e (up-IsKept, (p, all))
  | inr e ↦ rw e all
]

clean_part-All :
    (rooted : Bool) (kept : List Bytes) (part : Bytes)
    → All IsKept kept
    → IsFree part
    → All IsKept (clean_part rooted kept part)
unfolding clean_part
clean_part-All rooted kept part all free = elim (Bool-cases (is_skipped part)) [
  | inl e ↦ rw e all
  | inr e ↦ elim (Bool-cases (is_up part)) [
    | inl f ↦ rw (e, f) (climb-All rooted kept all)
    | inr f ↦ rw (e, f) (unfold IsKept IsFree in ((e, free), all))
  ]
]

pub clean_parts-All :
    (rooted : Bool) (kept parts : List Bytes)
    → All IsKept kept
    → All IsFree parts
    → All IsKept (clean_parts rooted kept parts)
unfolding clean_parts
clean_parts-All rooted kept [] all free = backwards-All IsKept kept [] all tt
clean_parts-All rooted kept (part ∷ parts) all (f, free) =
    clean_parts-All rooted (clean_part rooted kept part) parts
      (clean_part-All rooted kept part all f) free

-- A rooted path keeps no ".."; another one keeps none as long as the walk stays, and then for ever.
climb-IsBelow : (kept : List Bytes) → All IsBelow kept → All IsBelow (climb true kept)
unfolding climb IsBelow
climb-IsBelow [] all = tt
climb-IsBelow (k ∷ ks) (p, all) = rw p all

pub rooted-IsBelow :
    (kept parts : List Bytes) → All IsBelow kept → All IsBelow (clean_parts true kept parts)
unfolding clean_parts clean_part climb
rooted-IsBelow kept [] all = backwards-All IsBelow kept [] all tt
rooted-IsBelow kept (part ∷ parts) all = elim (Bool-cases (is_skipped part)) [
  | inl e ↦ rw e (rooted-IsBelow kept parts all)
  | inr e ↦ elim (Bool-cases (is_up part)) [
    | inl f ↦ rw (e, f) (rooted-IsBelow _ parts (climb-IsBelow kept all))
    | inr f ↦ rw (e, f) (rooted-IsBelow (part ∷ kept) parts (unfold IsBelow in (f, all)))
  ]
]

pub stays-IsBelow :
    (kept parts : List Bytes)
    → All IsBelow kept
    → stays (length kept) parts ≡ true
    → All IsBelow (clean_parts false kept parts)
unfolding clean_parts clean_part climb stays IsBelow
stays-IsBelow kept [] all h = backwards-All IsBelow kept [] (unfold IsBelow in all) tt
stays-IsBelow [] (part ∷ parts) all h = elim (Bool-cases (is_skipped part)) [
  | inl e ↦ rw e (stays-IsBelow [] parts all (rw e at h))
  | inr e ↦ elim (Bool-cases (is_up part)) [
    | inl f ↦ absurd (cc (rw (e, f) at h))
    | inr f ↦ rw (e, f) (stays-IsBelow (part ∷ []) parts (f, tt) (rw (e, f) at h))
  ]
]
stays-IsBelow (k ∷ ks) (part ∷ parts) (p, all) h = elim (Bool-cases (is_skipped part)) [
  | inl e ↦ rw e (stays-IsBelow (k ∷ ks) parts (p, all) (rw e at h))
  | inr e ↦ elim (Bool-cases (is_up part)) [
    | inl f ↦ rw (e, f, p) (stays-IsBelow ks parts all (rw (e, f) at h))
    | inr f ↦ rw (e, f) (stays-IsBelow (part ∷ k ∷ ks) parts (f, (p, all)) (rw (e, f) at h))
  ]
]

backwards-up : (kept done : List Bytes) → first_up (backwards (kept ++ up ∷ []) done) ≡ true
unfolding backwards first_up is_up
backwards-up [] done = refl
backwards-up (k ∷ kept) done = backwards-up kept (k ∷ done)

climb-up :
    (kept : List Bytes) → (more : List Bytes) × (climb false (kept ++ up ∷ []) ≡ more ++ up ∷ [])
unfolding climb
climb-up [] = (up ∷ [], refl)
climb-up (k ∷ ks) = elim (Bool-cases (is_up k)) [
  | inl g ↦ (up ∷ k ∷ ks, rw g refl)
  | inr g ↦ (ks, rw g refl)
]

stuck_up : (kept parts : List Bytes) → first_up (clean_parts false (kept ++ up ∷ []) parts) ≡ true
unfolding clean_parts clean_part
stuck_up kept [] = backwards-up kept []
stuck_up kept (part ∷ parts) = elim (Bool-cases (is_skipped part)) [
  | inl e ↦ rw e (stuck_up kept parts)
  | inr e ↦ elim (Bool-cases (is_up part)) [
    | inl f ↦ let (more, same) = climb-up kept in rw (e, f, same) (stuck_up more parts)
    | inr f ↦ rw (e, f) (stuck_up (part ∷ kept) parts)
  ]
]

pub leaves_up :
    (kept parts : List Bytes)
    → All IsBelow kept
    → stays (length kept) parts ≡ false
    → first_up (clean_parts false kept parts) ≡ true
unfolding clean_parts clean_part climb stays IsBelow
leaves_up kept [] all h = cc h
leaves_up [] (part ∷ parts) all h = elim (Bool-cases (is_skipped part)) [
  | inl e ↦ rw e (leaves_up [] parts all (rw e at h))
  | inr e ↦ elim (Bool-cases (is_up part)) [
    | inl f ↦ rw (e, f) (unfold climb in stuck_up [] parts)
    | inr f ↦ rw (e, f) (leaves_up (part ∷ []) parts (f, tt) (rw (e, f) at h))
  ]
]
leaves_up (k ∷ ks) (part ∷ parts) (p, all) h = elim (Bool-cases (is_skipped part)) [
  | inl e ↦ rw e (leaves_up (k ∷ ks) parts (p, all) (rw e at h))
  | inr e ↦ elim (Bool-cases (is_up part)) [
    | inl f ↦ rw (e, f, p) (leaves_up ks parts all (rw (e, f) at h))
    | inr f ↦ rw (e, f) (leaves_up (part ∷ k ∷ ks) parts (f, (p, all)) (rw (e, f) at h))
  ]
]

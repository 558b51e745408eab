-- ===== src/Transfer/Lexical/Splits.antt =====
-- How strings.Split and strings.Join undo each other on paths.
use agmux.Base.{
  ℕ, ◌≡◌, ◌∙◌, inl, inr, refl, ap, Bool, false, ◌==◌, ◌||◌, List, [], ◌∷◌, ◌++◌, Bytes, All,
  contains, arith, Bool-cases,
}
use agmux.Transfer.{push_byte, split_path, join_path, is_up, starts_up}

unfoldable pub IsFree : Bytes → Type 0
IsFree part = contains part b'/' ≡ false

push_byte-All :
    (c : ℕ) (parts : List Bytes)
    → (c == b'/') ≡ false
    → All IsFree parts
    → All IsFree (push_byte c parts)
unfolding push_byte IsFree contains
push_byte-All c [] h all = (ground (arith, h), tt)
push_byte-All c (part ∷ parts) h (free, all) = (ground (arith, h, free), all)

pub split_path-All : (s : Bytes) → All IsFree (split_path s)
unfolding split_path IsFree contains
split_path-All [] = (refl, tt)
split_path-All (c ∷ s) = elim (Bool-cases (c == b'/')) [
  | inl e ↦ rw e (refl, split_path-All s)
  | inr e ↦ rw e (push_byte-All c (split_path s) e (split_path-All s))
]

split_path-free : (part : Bytes) → IsFree part → split_path part ≡ part ∷ []
unfolding split_path IsFree contains push_byte
split_path-free [] free = refl
split_path-free (c ∷ s) free = ground (arith, split_path-free s)

split_path-append :
    (part s : Bytes) → IsFree part → split_path (part ++ b'/' ∷ s) ≡ part ∷ split_path s
unfolding split_path IsFree contains push_byte
split_path-append [] s free = refl
split_path-append (c ∷ part) s free = ground (arith, split_path-append part s)

pub split_path-join_path :
    (part : Bytes) (parts : List Bytes)
    → All IsFree (part ∷ parts)
    → split_path (join_path (part ∷ parts)) ≡ part ∷ parts
unfolding join_path
split_path-join_path part [] (free, _) = split_path-free part free
split_path-join_path part (next ∷ parts) (free, all) =
    split_path-append part (join_path (next ∷ parts)) free
    ∙ ap (λ rest. part ∷ rest) (split_path-join_path next parts all)

-- The test of cleanRelPath and IsLocal reads the first part.
unfoldable pub first_up : List Bytes → Bool
unfolding is_up
first_up [] = false
first_up (part ∷ parts) = is_up part

up_pushed :
    (c d e : ℕ) (parts : List Bytes)
    → (d == b'/') ≡ false
    → (e == b'/') ≡ false
    → first_up (push_byte c (push_byte d (push_byte e parts))) ≡ false
unfolding is_up first_up push_byte
up_pushed c d e [] h k = refl
up_pushed c d e (part ∷ parts) h k = refl

pub leads_up : (s : Bytes) → (is_up s || starts_up s) ≡ first_up (split_path s)
unfolding is_up starts_up first_up split_path push_byte
leads_up [] = refl
leads_up (c ∷ []) = ground arith
leads_up (c ∷ d ∷ []) = ground arith
leads_up (c ∷ d ∷ e ∷ s) = ground (arith, up_pushed c d e (split_path s))

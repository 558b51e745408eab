-- ===== src/Shell/Words/Quoting.antt =====
-- A quoted text is read back as one word.
use agmux.Base.{
  ℕ, ◌≡◌, refl, ap, ◌∙◌, inl, inr, Bool, true, false, not, ◌&&◌, List, [], ◌∷◌, ◌++◌, map,
  append_assoc, append-nil, some, Bytes, contains, ◌==◌, arith, Bool-cases, if◌then◌else◌,
}
use agmux.Shell.{
  single_quote, safe_chars, all_safe, escaped_quote, escape_quotes, wrap_single, quote, shell_quote,
  join_space, join_command_args,
}
use agmux.Shell.Words.{gap, word, single, blank, double_quote, specials, read, cons_word, words}

-- A byte that the shell reads as itself outside quotes.
abbrev ordinary : ℕ → Bool
ordinary c =
    not (c == blank)
    && (not (c == single_quote) && (not (c == double_quote) && not (contains specials c)))

all : (ℕ → Bool) → Bytes → Bool
all p [] = true
all p (c ∷ s) = p c && all p s

all-contains :
    (p : ℕ → Bool) (l : Bytes) (c : ℕ) → all p l ≡ true → contains l c ≡ true → p c ≡ true
unfolding all contains
all-contains p [] c h k = cc
all-contains p (b ∷ l) c h k = ground (arith, all-contains p l c)

safe_table : all ordinary safe_chars ≡ true
unfolding all contains
safe_table = refl

ordinary_of_safe : (c : ℕ) → contains safe_chars c ≡ true → ordinary c ≡ true
ordinary_of_safe c = all-contains ordinary safe_chars c safe_table

read-word_ordinary :
    (c : ℕ) (cur s : Bytes)
    → ordinary c ≡ true
    → read word cur (c ∷ s) ≡ read word (cur ++ c ∷ []) s
unfolding read
read-word_ordinary c cur s h = ground arith

read-gap_ordinary :
    (c : ℕ) (cur s : Bytes) → ordinary c ≡ true → read gap cur (c ∷ s) ≡ read word (c ∷ []) s
unfolding read
read-gap_ordinary c cur s h = ground arith

and_left : (a b : Bool) → (a && b) ≡ true → a ≡ true
and_left true b h = refl
and_left false b h = cc

and_right : (a b : Bool) → (a && b) ≡ true → b ≡ true
and_right true b h = h
and_right false b h = cc

read-word_safe :
    (s cur rest : Bytes) → all_safe s ≡ true → read word cur (s ++ rest) ≡ read word (cur ++ s) rest
unfolding all_safe
read-word_safe [] cur rest h = rw append-nil
read-word_safe (c ∷ s) cur rest h =
    rw (read-word_ordinary c cur (s ++ rest) (ordinary_of_safe c (and_left _ _ h))) (
      rw (read-word_safe s (cur ++ c ∷ []) rest (and_right (contains safe_chars c) _ h))
        (rw append_assoc))

read-open : (cur s : Bytes) → read gap cur (single_quote ∷ s) ≡ read single [] s
unfolding read
read-open cur s = refl

read-single_quote : (cur s : Bytes) → read single cur (single_quote ∷ s) ≡ read word cur s
unfolding read
read-single_quote cur s = refl

read-safe :
    (c : ℕ) (s cur rest : Bytes)
    → all_safe (c ∷ s) ≡ true
    → read gap cur (c ∷ s ++ rest) ≡ read word (c ∷ s) rest
unfolding all_safe
read-safe c s cur rest h =
    rw (read-gap_ordinary c cur (s ++ rest) (ordinary_of_safe c (and_left _ _ h)))
      (read-word_safe s (c ∷ []) rest (and_right (contains safe_chars c) _ h))

read-escaped_quote :
    (cur s : Bytes)
    → read single cur (escaped_quote ++ s) ≡ read single (cur ++ single_quote ∷ []) s
unfolding read contains
read-escaped_quote cur s = refl

-- One byte of a quoted text: the escape of a quote closes, quotes it, and opens again.
read-single_byte :
    (c : ℕ) (cur s : Bytes)
    → read single cur ((if c == single_quote then escaped_quote else c ∷ []) ++ s)
      ≡ read single (cur ++ c ∷ []) s
read-single_byte c cur s = elim (Bool-cases (c == single_quote)) [
  | inl e ↦ let q : c ≡ single_quote = ground arith in rw q (read-escaped_quote cur s)
  | inr e ↦ rw e (unfold read in rw (e, read))
]

read-escape_quotes :
    (s cur rest : Bytes) → read single cur (escape_quotes s ++ rest) ≡ read single (cur ++ s) rest
unfolding escape_quotes
read-escape_quotes [] cur rest = rw append-nil
read-escape_quotes (c ∷ s) cur rest = simp (append_assoc, read-single_byte, read-escape_quotes s)

read-wrap_single : (s cur rest : Bytes) → read gap cur (wrap_single s ++ rest) ≡ read word s rest
unfolding wrap_single
read-wrap_single s cur rest = simp (append_assoc, read-open, read-escape_quotes, read-single_quote)

-- Reading goes on in the word that a quoted text spells, whatever follows it.
pub read-quote : (s cur rest : Bytes) → read gap cur (quote s ++ rest) ≡ read word s rest
unfolding quote
read-quote [] cur rest = unfold read in refl
read-quote (c ∷ s) cur rest = elim (Bool-cases (all_safe (c ∷ s))) [
  | inl e ↦ rw e (read-safe c s cur rest e)
  | inr e ↦ rw e (read-wrap_single (c ∷ s) cur rest)
]

pub read-shell_quote :
    (s cur rest : Bytes) → read gap cur (shell_quote s ++ rest) ≡ read word s rest
unfolding shell_quote
read-shell_quote [] cur rest = unfold read in refl
read-shell_quote (c ∷ s) cur rest = read-wrap_single (c ∷ s) cur rest

read-word_blank : (cur s : Bytes) → read word cur (blank ∷ s) ≡ cons_word cur (read gap [] s)
unfolding read
read-word_blank cur s = refl

read-word_end : (cur : Bytes) → read word cur [] ≡ some (cur ∷ [])
unfolding read
read-word_end cur = refl

pub read-safe_word :
    (c : ℕ) (s cur rest : Bytes)
    → all_safe (c ∷ s) ≡ true
    → read gap cur ((c ∷ s) ++ blank ∷ rest) ≡ cons_word (c ∷ s) (read gap [] rest)
read-safe_word c s cur rest h = read-safe c s cur (blank ∷ rest) h ∙ read-word_blank (c ∷ s) rest

pub read-quote_word :
    (s cur rest : Bytes) → read gap cur (quote s ++ blank ∷ rest) ≡ cons_word s (read gap [] rest)
read-quote_word s cur rest = read-quote s cur (blank ∷ rest) ∙ read-word_blank s rest

pub read-quote_end : (s cur : Bytes) → read gap cur (quote s) ≡ some (s ∷ [])
read-quote_end s cur = rw (← append-nil (quote s)) (read-quote s cur [] ∙ read-word_end s)

-- The shell reads the quotation of any text back as one word, the text itself.
words-quote : (s : Bytes) → words (quote s) ≡ some (s ∷ [])
unfolding words
words-quote s = read-quote_end s []

words-join_space :
    (a : Bytes) (rest : List Bytes)
    → words (join_space (map shell_quote (a ∷ rest))) ≡ some (a ∷ rest)
unfolding words join_space
words-join_space a [] =
    rw (← append-nil (shell_quote a)) (read-shell_quote a [] [] ∙ read-word_end a)
words-join_space a (b ∷ rest) =
    read-shell_quote a [] (blank ∷ join_space (map shell_quote (b ∷ rest)))
    ∙ read-word_blank a (join_space (map shell_quote (b ∷ rest)))
    ∙ ap (cons_word a) (words-join_space b rest)

-- Two or more command arguments are joined to a line that the shell splits into the same arguments;
-- a single one is passed on as it is.
pub words-join_command_args :
    (a b : Bytes) (rest : List Bytes)
    → (words (join_command_args (a ∷ b ∷ rest)) ≡ some (a ∷ b ∷ rest))
      × (join_command_args (a ∷ []) ≡ a)
unfolding join_command_args
words-join_command_args a b rest = (words-join_space a (b ∷ rest), refl)

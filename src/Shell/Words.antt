-- ===== src/Shell/Words.antt =====
-- An independent reading of a POSIX shell line as words, for lines without expansions: `none` is a
-- line that is unfinished, or that holds an operator, an expansion or a pattern outside quotes.
pub mod Quoting
use agmux.Base.{
  ℕ, ◌≡◌, refl, Bool, List, [], ◌∷◌, ◌++◌, Option, none, some, Bytes, codes, contains, ◌==◌,
  if◌then◌else◌,
}
use agmux.Shell.{single_quote}

abbrev pub blank : ℕ
blank = b' '

abbrev pub double_quote : ℕ
double_quote = b'"'

-- What the shell reads otherwise than as itself outside quotes.
abbrev pub specials : Bytes
specials = codes "|&;<>()$`\\\"' \t\n*?[]#~!{}^"

-- What the shell reads otherwise than as itself between double quotes.
abbrev pub double_specials : Bytes
double_specials = codes "$`\\\"!"

-- `gap` stands between words, `word` in one, the others behind an opening quote.
pub data Mode : Type 0 where
  gap word single double : Mode

abbrev pub cons_word : Bytes → Option (List Bytes) → Option (List Bytes)
cons_word w none = none
cons_word w (some ws) = some (w ∷ ws)

-- `cur` is the word so far.
unfoldable pub read : Mode → Bytes → Bytes → Option (List Bytes)
read gap cur [] = some []
read word cur [] = some (cur ∷ [])
read single cur [] = none
read double cur [] = none
read gap cur (c ∷ s) =
    let next = read gap [] s in
    let open_single = read single [] s in
    let open_double = read double [] s in
    let plain = read word (c ∷ []) s in
    if c == blank
    then next
    else if c == single_quote
    then open_single
    else if c == double_quote
    then open_double
    else if contains specials c
    then none
    else plain
read word cur (c ∷ s) =
    let next = cons_word cur (read gap [] s) in
    let open_single = read single cur s in
    let open_double = read double cur s in
    let plain = read word (cur ++ c ∷ []) s in
    if c == blank
    then next
    else if c == single_quote
    then open_single
    else if c == double_quote
    then open_double
    else if contains specials c
    then none
    else plain
read single cur (c ∷ s) =
    let close = read word cur s in
    let plain = read single (cur ++ c ∷ []) s in if c == single_quote then close else plain
read double cur (c ∷ s) =
    let close = read word cur s in
    let plain = read double (cur ++ c ∷ []) s in
    if c == double_quote then close else if contains double_specials c then none else plain

unfoldable pub words : Bytes → Option (List Bytes)
unfolding read contains
words = read gap []

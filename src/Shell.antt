-- ===== src/Shell.antt =====
-- internal/shellquote/quote.go, and shellQuote and joinCommandArgs of cmd/gssh/commands.go.
pub mod Words
use agmux.Base.{
  ℕ, ◌≡◌, refl, Bool, true, ◌&&◌, List, [], ◌∷◌, ◌++◌, map, Bytes, codes, contains, ◌==◌,
  if◌then◌else◌,
}

abbrev pub single_quote : ℕ
single_quote = b'\''

-- safeChars: a byte of a longer rune is 128 or more, and none of these.
abbrev pub safe_chars : Bytes
safe_chars = codes "abcdefghijklmnopqrstuvwxyzABCDEFGHIJKLMNOPQRSTUVWXYZ0123456789_@%+=:,./-"

-- IndexFunc finds no rune outside safeChars.
unfoldable pub all_safe : Bytes → Bool
all_safe [] = true
all_safe (c ∷ s) = contains safe_chars c && all_safe s

abbrev pub escaped_quote : Bytes
escaped_quote = codes "'\"'\"'"

-- strings.ReplaceAll(s, "'", `'"'"'`)
unfoldable pub escape_quotes : Bytes → Bytes
escape_quotes [] = []
escape_quotes (c ∷ s) = (if c == single_quote then escaped_quote else c ∷ []) ++ escape_quotes s

unfoldable pub wrap_single : Bytes → Bytes
unfolding escape_quotes
wrap_single s = single_quote ∷ (escape_quotes s ++ single_quote ∷ [])

-- Quote
unfoldable pub quote : Bytes → Bytes
unfolding all_safe wrap_single
quote [] = codes "''"
quote (c ∷ s) = if all_safe (c ∷ s) then c ∷ s else wrap_single (c ∷ s)

-- shellQuote
unfoldable pub shell_quote : Bytes → Bytes
unfolding wrap_single
shell_quote [] = codes "''"
shell_quote (c ∷ s) = wrap_single (c ∷ s)

-- strings.Join(parts, " ")
unfoldable pub join_space : List Bytes → Bytes
join_space [] = []
join_space (p ∷ []) = p
join_space (p ∷ q ∷ ps) = p ++ b' ' ∷ join_space (q ∷ ps)

-- joinCommandArgs
unfoldable pub join_command_args : List Bytes → Bytes
unfolding join_space
join_command_args [] = []
join_command_args (a ∷ []) = a
join_command_args (a ∷ b ∷ rest) = join_space (map shell_quote (a ∷ b ∷ rest))

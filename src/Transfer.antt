-- ===== src/Transfer.antt =====
-- internal/transfer/sftp.go: relative paths. A path is its bytes, as path/filepath reads it on Unix.
pub mod Lexical
pub mod Kernel
pub mod SafeRoot
pub mod Paths
pub mod Download
pub mod Upload
pub mod Service
use agmux.Base.{
  ℕ, zero, suc, Option, none, some, Bool, true, false, not, ◌==◌, ◌&&◌, ◌||◌, List, [], ◌∷◌, ◌++◌,
  if◌then◌else◌, Bytes,
}

-- strings.Split at the separator: never empty.
unfoldable pub push_byte : ℕ → List Bytes → List Bytes
push_byte c [] = (c ∷ []) ∷ []
push_byte c (part ∷ parts) = (c ∷ part) ∷ parts

unfoldable pub split_path : Bytes → List Bytes
unfolding push_byte
split_path [] = [] ∷ []
split_path (c ∷ s) = let parts = split_path s in if c == b'/' then [] ∷ parts else push_byte c parts

-- strings.Join
unfoldable pub join_path : List Bytes → Bytes
join_path [] = []
join_path (part ∷ []) = part
join_path (part ∷ next ∷ parts) = part ++ b'/' ∷ join_path (next ∷ parts)

-- The empty part and "."
unfoldable pub is_skipped : Bytes → Bool
is_skipped [] = true
is_skipped (c ∷ []) = c == b'.'
is_skipped (c ∷ d ∷ s) = false

-- ".."
unfoldable pub is_up : Bytes → Bool
is_up [] = false
is_up (c ∷ []) = false
is_up (c ∷ d ∷ []) = c == b'.' && d == b'.'
is_up (c ∷ d ∷ e ∷ s) = false

-- strings.HasPrefix(path, "../")
unfoldable pub starts_up : Bytes → Bool
starts_up [] = false
starts_up (c ∷ []) = false
starts_up (c ∷ d ∷ []) = false
starts_up (c ∷ d ∷ e ∷ s) = c == b'.' && d == b'.' && e == b'/'

unfoldable pub is_rooted : Bytes → Bool
is_rooted [] = false
is_rooted (c ∷ s) = c == b'/'

-- filepath.Clean: the parts that are kept, the last one first.
abbrev pub up : Bytes
up = b'.' ∷ b'.' ∷ []

unfoldable pub climb : Bool → List Bytes → List Bytes
unfolding is_up
climb true [] = []
climb false [] = up ∷ []
climb rooted (part ∷ kept) = if is_up part then up ∷ part ∷ kept else kept

unfoldable pub clean_part : Bool → List Bytes → Bytes → List Bytes
unfolding climb is_skipped is_up
clean_part rooted kept part =
    if is_skipped part then kept else if is_up part then climb rooted kept else part ∷ kept

unfoldable pub backwards : List Bytes → List Bytes → List Bytes
backwards [] done = done
backwards (part ∷ kept) done = backwards kept (part ∷ done)

unfoldable pub clean_parts : Bool → List Bytes → List Bytes → List Bytes
unfolding clean_part backwards
clean_parts rooted kept [] = backwards kept []
clean_parts rooted kept (part ∷ parts) = clean_parts rooted (clean_part rooted kept part) parts

unfoldable pub or_dot : Bytes → Bytes
or_dot [] = b'.' ∷ []
or_dot (c ∷ s) = c ∷ s

unfoldable pub clean : Bytes → Bytes
unfolding clean_parts split_path join_path is_rooted or_dot
clean s =
    if is_rooted s
    then b'/' ∷ join_path (clean_parts true [] (split_path s))
    else or_dot (join_path (clean_parts false [] (split_path s)))

-- cleanRelPath: the root is the empty path.
unfoldable pub rel_of : Bytes → Option Bytes
unfolding is_skipped is_up starts_up
rel_of s = if is_skipped s then some [] else if is_up s || starts_up s then none else some s

unfoldable pub clean_rel_path : Bytes → Option Bytes
unfolding rel_of clean
clean_rel_path s = rel_of (clean s)

-- filepath.IsLocal: a path without dots is not cleaned first.
unfoldable pub has_dots : List Bytes → Bool
unfolding is_up
has_dots [] = false
has_dots ([] ∷ parts) = has_dots parts
has_dots ((c ∷ s) ∷ parts) = is_skipped (c ∷ s) || is_up (c ∷ s) || has_dots parts

unfoldable pub lexical : Bytes → Bytes
unfolding has_dots clean split_path
lexical s = if has_dots (split_path s) then clean s else s

unfoldable pub is_local_path : Bytes → Bool
is_local_path [] = false
is_local_path (c ∷ s) =
    let path = lexical (c ∷ s) in
    if is_rooted (c ∷ s) then false else not (is_up path || starts_up path)

-- checkPathTraversal: no error.
unfoldable pub check_path_traversal : Bytes → Bool
unfolding is_local_path
check_path_traversal rel_path = is_local_path rel_path

-- ===== src/Transfer/SafeRoot.antt =====
-- internal/transfer/safefile_unix.go: directories and files under the descriptor of the root.
pub mod Inside
pub mod Descriptors
use agmux.Base.{
  ℕ, suc, ◌-◌, ◌%◌, Option, none, some, Bool, true, false, not, ◌&&◌, ◌==◌, List, [], ◌∷◌, ◌++◌,
  if◌then◌else◌, Bytes,
}
use agmux.CommandLine.{split_last}
use agmux.Transfer.{split_path, clean, clean_rel_path, is_skipped}
use agmux.Transfer.Kernel.{
  Fs, Kernel, Errno, exists, not_found, not_dir, is_dir, is_link, refused, Opened, got, failed,
  mkdirat, openat_dir, openat_file,
}

pub data Failure : Type 0 where
  invalid_path : Failure
  system : Errno → Failure

-- A descriptor that openat returns is not the root's.
pub data Dir : Type 0 where
  root_dir : Dir
  sub_dir : ℕ → Dir

abbrev pub inode : ℕ → Dir → ℕ
inode root root_dir = root
inode root (sub_dir i) = i

unfoldable pub close_dir : Dir → Fs → Fs
close_dir root_dir fs = fs
close_dir (sub_dir i) fs = record fs { opened = fs.opened - 1 }

-- An existing directory is no error of mkdirat.
unfoldable pub blocks : Option Errno → Option Errno
blocks none = none
blocks (some exists) = none
blocks (some not_found) = some not_found
blocks (some not_dir) = some not_dir
blocks (some is_dir) = some is_dir
blocks (some is_link) = some is_link
blocks (some refused) = some refused

-- The rest of a round once openat has answered.
unfoldable pub enter : (Dir → Fs → Fs × Option Failure) → Dir → Fs × Opened → Fs × Option Failure
unfolding close_dir
enter next d (fs, failed e) = (close_dir d fs, some (system e))
enter next d (fs, got i) = next (sub_dir i) (close_dir d fs)

unfoldable pub after_mkdir :
    Kernel
    → ℕ
    → (Dir → Fs → Fs × Option Failure)
    → Dir
    → Bytes
    → Fs
    → Option Errno
    → Fs × Option Failure
unfolding enter openat_dir close_dir
after_mkdir k root next d part fs (some e) = (close_dir d fs, some (system e))
after_mkdir k root next d part fs none = enter next d (openat_dir k (inode root d) part fs)

abbrev pub create_mode : ℕ → List Bytes → ℕ
create_mode mode [] = mode % 512
create_mode mode (part ∷ parts) = 493

unfoldable pub ensure_part :
    Kernel
    → ℕ
    → (Dir → Fs → Fs × Option Failure)
    → Dir
    → Bytes
    → Fs × Option Errno
    → Fs × Option Failure
unfolding after_mkdir blocks
ensure_part k root next d part (fs, e) = after_mkdir k root next d part fs (blocks e)

unfoldable pub ensure_parts : Kernel → ℕ → ℕ → List Bytes → Dir → Fs → Fs × Option Failure
unfolding ensure_part close_dir mkdirat is_skipped
ensure_parts k root mode [] d fs = (close_dir d fs, none)
ensure_parts k root mode (part ∷ parts) d fs =
    let next = ensure_parts k root mode parts in
    if is_skipped part
    then next d fs
    else ensure_part k root next d part (mkdirat k (inode root d) part (create_mode mode parts) fs)

-- ensureDir
unfoldable pub ensure_rel : Kernel → ℕ → ℕ → Fs → Option Bytes → Fs × Option Failure
unfolding ensure_parts split_path
ensure_rel k root mode fs none = (fs, some invalid_path)
ensure_rel k root mode fs (some []) = (fs, none)
ensure_rel k root mode fs (some (c ∷ s)) = ensure_parts k root mode (split_path (c ∷ s)) root_dir fs

unfoldable pub ensure_dir : Kernel → ℕ → Bytes → ℕ → Fs → Fs × Option Failure
unfolding ensure_rel clean_rel_path
ensure_dir k root rel_path mode fs = ensure_rel k root mode fs (clean_rel_path rel_path)

-- openDir
pub data DirResult : Type 0 where
  dir_opened : Dir → DirResult
  dir_failed : Failure → DirResult

unfoldable pub open_next : (Dir → Fs → Fs × DirResult) → Dir → Fs × Opened → Fs × DirResult
unfolding close_dir
open_next next d (fs, failed e) = (close_dir d fs, dir_failed (system e))
open_next next d (fs, got i) = next (sub_dir i) (close_dir d fs)

unfoldable pub open_parts : Kernel → ℕ → List Bytes → Dir → Fs → Fs × DirResult
unfolding open_next openat_dir is_skipped
open_parts k root [] d fs = (fs, dir_opened d)
open_parts k root (part ∷ parts) d fs =
    let next = open_parts k root parts in
    if is_skipped part then next d fs else open_next next d (openat_dir k (inode root d) part fs)

unfoldable pub open_rel : Kernel → ℕ → Fs → Option Bytes → Fs × DirResult
unfolding open_parts split_path
open_rel k root fs none = (fs, dir_failed invalid_path)
open_rel k root fs (some []) = (fs, dir_opened root_dir)
open_rel k root fs (some (c ∷ s)) = open_parts k root (split_path (c ∷ s)) root_dir fs

unfoldable pub open_dir : Kernel → ℕ → Bytes → Fs → Fs × DirResult
unfolding open_rel clean_rel_path
open_dir k root rel_path fs = open_rel k root fs (clean_rel_path rel_path)

-- filepath.Dir and filepath.Base
unfoldable pub through_slash : Option (Bytes × Bytes) → Bytes
through_slash none = []
through_slash (some (dir, base)) = dir ++ b'/' ∷ []

unfoldable pub dir_of : Bytes → Bytes
unfolding through_slash clean split_last
dir_of s = clean (through_slash (split_last b'/' s))

abbrev pub is_empty : Bytes → Bool
is_empty [] = true
is_empty (c ∷ s) = false

unfoldable pub strip_slashes : Bytes → Bytes
strip_slashes [] = []
strip_slashes (c ∷ s) =
    let rest = strip_slashes s in if c == b'/' && is_empty rest then [] else c ∷ rest

unfoldable pub last_name : Bytes → Option (Bytes × Bytes) → Bytes
last_name [] found = b'/' ∷ []
last_name (c ∷ s) none = c ∷ s
last_name (c ∷ s) (some (dir, base)) = base

unfoldable pub base_of : Bytes → Bytes
unfolding last_name strip_slashes split_last
base_of [] = b'.' ∷ []
base_of (c ∷ s) = let path = strip_slashes (c ∷ s) in last_name path (split_last b'/' path)

-- openFile
pub data FileResult : Type 0 where
  file_opened : ℕ → FileResult
  file_failed : Failure → FileResult

unfoldable pub wrap : Opened → FileResult
wrap (got i) = file_opened i
wrap (failed e) = file_failed (system e)

unfoldable pub open_in_parent : Kernel → ℕ → Bytes → ℕ → Fs × DirResult → Fs × FileResult
unfolding openat_file close_dir base_of wrap
open_in_parent k root rel perm (fs, dir_failed f) = (fs, file_failed f)
open_in_parent k root rel perm (fs, dir_opened d) =
    let r = openat_file k (inode root d) (base_of rel) (perm % 512) fs in
    (close_dir d r.0, wrap r.1)

unfoldable pub open_ensured : Kernel → ℕ → Bytes → ℕ → Fs × Option Failure → Fs × FileResult
unfolding open_in_parent open_dir dir_of
open_ensured k root rel perm (fs, some f) = (fs, file_failed f)
open_ensured k root rel perm (fs, none) =
    open_in_parent k root rel perm (open_dir k root (dir_of rel) fs)

unfoldable pub open_file_rel : Kernel → ℕ → ℕ → Fs → Option Bytes → Fs × FileResult
unfolding open_ensured ensure_dir dir_of
open_file_rel k root perm fs none = (fs, file_failed invalid_path)
open_file_rel k root perm fs (some []) = (fs, file_failed invalid_path)
open_file_rel k root perm fs (some (c ∷ s)) =
    open_ensured k root (c ∷ s) perm (ensure_dir k root (dir_of (c ∷ s)) 493 fs)

unfoldable pub open_file : Kernel → ℕ → Bytes → ℕ → Fs → Fs × FileResult
unfolding open_file_rel clean_rel_path
open_file k root rel_path perm fs = open_file_rel k root perm fs (clean_rel_path rel_path)

-- ===== src/Transfer/Paths.antt =====
-- internal/transfer/sftp.go: the checks of the local path that a download goes to. A clean absolute
-- path is the list of its names, from the root of the file system; what it leads to is read from there.
pub mod Under
pub mod Parents
pub mod Targets
use agmux.Base.{
  bytes_eq, ℕ, zero, suc, Option, none, some, Bool, true, false, not, ◌||◌, List, [], ◌∷◌, ◌++◌,
  if◌then◌else◌, Bytes, length,
}
use agmux.Transfer.{split_path, is_up, up, backwards, clean_parts}
use agmux.Transfer.Kernel.{Fs}

abbrev pub AbsPath : Type 0
AbsPath = List Bytes

-- filepath.Join of an absolute path and a relative one
unfoldable pub join : AbsPath → Bytes → AbsPath
unfolding clean_parts split_path
join root rel = clean_parts true [] (root ++ split_path rel)

-- filepath.Rel of two clean absolute paths: the names that differ, behind a ".." for each name left.
unfoldable pub climb_out : AbsPath → AbsPath → AbsPath
climb_out [] target = target
climb_out (name ∷ base) target = up ∷ climb_out base target

unfoldable pub rel_names : AbsPath → AbsPath → AbsPath
unfolding climb_out bytes_eq
rel_names [] target = target
rel_names (name ∷ base) [] = climb_out (name ∷ base) []
rel_names (name ∷ base) (other ∷ target) =
    let rest = rel_names base target in
    if bytes_eq name other then rest else climb_out (name ∷ base) (other ∷ target)

-- pathEscapesRoot: the relative path is ".." or starts with "../".
unfoldable pub leads_out : AbsPath → Bool
unfolding is_up
leads_out [] = false
leads_out (name ∷ names) = is_up name

unfoldable pub path_escapes_root : AbsPath → AbsPath → Bool
unfolding leads_out rel_names
path_escapes_root root target = leads_out (rel_names root target)

-- filepath.EvalSymlinks
pub data Resolved : Type 0 where
  resolved : AbsPath → Resolved
  not_there resolve_failed : Resolved

-- os.Lstat and os.Stat
pub record Look : Type 0 where
  pub is_dir : Bool
  pub is_symlink : Bool
  pub size : ℕ
  pub mod_time : ℕ

pub data Stat : Type 0 where
  missing stat_failed : Stat
  found : Look → Stat

-- The calls of package os that take a path.
pub record Host : Type 0 where
  pub lstat : Fs → AbsPath → Stat
  pub stat : Fs → AbsPath → Stat
  pub eval_symlinks : Fs → AbsPath → Resolved
  pub mkdir_all : Fs → AbsPath → ℕ → Fs × Bool

pub data Unsafe : Type 0 where
  path_traversal symlink_traversal at_symlink not_a_directory : Unsafe
  resolve_error inspect_error mkdir_error : Unsafe

-- resolveExistingParent: the names of the current path, the last one first; `endless` is a loop that
-- does not end.
pub data Parent : Type 0 where
  parent : AbsPath → Parent
  no_parent endless : Parent

unfoldable pub climb_on : (AbsPath → Parent) → AbsPath → Resolved → Parent
climb_on next current (resolved path) = parent path
climb_on next current resolve_failed = no_parent
climb_on next [] not_there = no_parent
climb_on next (name ∷ current) not_there = next current

unfoldable pub resolve_loop : (AbsPath → Resolved) → ℕ → AbsPath → Parent
unfolding climb_on backwards
resolve_loop resolve zero current = endless
resolve_loop resolve (suc n) current =
    climb_on (resolve_loop resolve n) current (resolve (backwards current []))

unfoldable pub resolve_existing_parent : (AbsPath → Resolved) → AbsPath → Parent
unfolding resolve_loop backwards
resolve_existing_parent resolve path =
    resolve_loop resolve (suc (length (backwards path []))) (backwards path [])

-- filepath.Dir
unfoldable pub without_last : AbsPath → AbsPath
without_last [] = []
without_last (name ∷ []) = []
without_last (name ∷ next ∷ path) = name ∷ without_last (next ∷ path)

-- safeLocalDownloadPath: `none` is no error.
unfoldable pub inspect : Stat → Option Unsafe
inspect missing = none
inspect stat_failed = some inspect_error
inspect (found look) = if look.is_symlink then some at_symlink else none

unfoldable pub check_parent : AbsPath → Stat → Parent → Option Unsafe
unfolding inspect path_escapes_root
check_parent root_resolved target no_parent = some resolve_error
check_parent root_resolved target endless = some resolve_error
check_parent root_resolved target (parent path) =
    if path_escapes_root root_resolved path then some symlink_traversal else inspect target

unfoldable pub safe_local_download_path : Host → Fs → AbsPath → AbsPath → AbsPath → Option Unsafe
unfolding check_parent path_escapes_root resolve_existing_parent without_last
safe_local_download_path h fs root root_resolved target =
    if path_escapes_root root target
    then some path_traversal
    else check_parent root_resolved (h.lstat fs target)
        (resolve_existing_parent (h.eval_symlinks fs) (without_last target))

-- ensureSafeLocalDir
unfoldable pub check_directory : Stat → Option Unsafe
check_directory missing = some inspect_error
check_directory stat_failed = some inspect_error
check_directory (found look) =
    if look.is_symlink
    then some at_symlink
    else if not look.is_dir
    then some not_a_directory
    else none

unfoldable pub made : Host → AbsPath → Fs × Bool → Fs × Option Unsafe
unfolding check_directory
made h path (fs, false) = (fs, some mkdir_error)
made h path (fs, true) = (fs, check_directory (h.lstat fs path))

unfoldable pub ensure_looked : Host → AbsPath → ℕ → Fs → Stat → Fs × Option Unsafe
unfolding made check_directory
ensure_looked h path mode fs missing = made h path (h.mkdir_all fs path mode)
ensure_looked h path mode fs stat_failed = (fs, some inspect_error)
ensure_looked h path mode fs (found look) = (fs, check_directory (found look))

unfoldable pub ensure_safe_local_dir : Host → AbsPath → ℕ → Fs → Fs × Option Unsafe
unfolding ensure_looked
ensure_safe_local_dir h path mode fs = ensure_looked h path mode fs (h.lstat fs path)

-- prepareDownloadRoot, for an absolute path
pub data Root : Type 0 where
  root_error : Unsafe → Root
  root_paths : AbsPath → AbsPath → Root

unfoldable pub root_resolved : AbsPath → Resolved → Root
root_resolved path (resolved there) = root_paths path there
root_resolved path not_there = root_error resolve_error
root_resolved path resolve_failed = root_error resolve_error

unfoldable pub prepare_ensured : Host → AbsPath → Fs × Option Unsafe → Fs × Root
unfolding root_resolved
prepare_ensured h path (fs, some e) = (fs, root_error e)
prepare_ensured h path (fs, none) = (fs, root_resolved path (h.eval_symlinks fs path))

unfoldable pub prepare_download_root : Host → AbsPath → Fs → Fs × Root
unfolding prepare_ensured ensure_safe_local_dir
prepare_download_root h path fs = prepare_ensured h path (ensure_safe_local_dir h path 493 fs)

-- prepareSingleFileDownloadTarget prepares the directory of the target.
unfoldable pub prepare_single_file_target : Host → AbsPath → Fs → Fs × Root
unfolding prepare_download_root without_last
prepare_single_file_target h target fs = prepare_download_root h (without_last target) fs

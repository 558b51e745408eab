-- ===== src/Transfer/Download.antt =====
-- internal/transfer/sftp.go: the walk of a download. What the server answers is any list of steps.
pub mod Confined
use agmux.Base.{
  ℕ, ◌+◌, ◌==◌, ◌&&◌, ◌||◌, not, Option, none, some, Bool, true, false, List, [], ◌∷◌,
  if◌then◌else◌, Bytes, length,
}
use agmux.Transfer.{is_skipped, check_path_traversal}
use agmux.Transfer.Kernel.{Node, absent, file, link, directory, Fs, Kernel, before, set_node}
use agmux.Transfer.SafeRoot.{
  Failure, FileResult, file_opened, file_failed, ensure_dir, open_file, close_dir, sub_dir,
}
use agmux.Transfer.Paths.{
  AbsPath, Look, Stat, missing, stat_failed, found, Host, Unsafe, join, safe_local_download_path,
  ensure_safe_local_dir,
}

-- os.FileInfo of a remote file
pub record FileInfo : Type 0 where
  pub is_dir : Bool
  pub size : ℕ
  pub mod_time : ℕ
  pub mode : ℕ

-- What the server delivers for a file: whether it opens, its bytes, whether they end well, and the mode
-- that it reports afterwards.
pub record RemoteFile : Type 0 where
  pub opens : Bool
  pub bytes : Bytes
  pub ends_well : Bool
  pub mode_after : Option ℕ

-- A step of the walker: the path relative to the start is what filepath.Rel gives.
pub data Step : Type 0 where
  walk_error : Step
  visits : Option Bytes → FileInfo → RemoteFile → Step

pub data DownloadError : Type 0 where
  walker_failed no_rel escapes : DownloadError
  unsafe_target unsafe_dir : Unsafe → DownloadError
  dir_error create_error : Failure → DownloadError
  open_error copy_error chmod_error times_error : DownloadError

-- io.Copy, Chmod and setFileTimes on the open file
unfoldable pub filled : Bytes → Node → Node
filled bytes absent = absent
filled bytes (link target) = link target
filled bytes (directory mode parent entries) = directory mode parent entries
filled bytes (file mode time old) = file mode time bytes

unfoldable pub with_mode : ℕ → Node → Node
with_mode mode absent = absent
with_mode mode (link target) = link target
with_mode mode (directory old parent entries) = directory old parent entries
with_mode mode (file old time bytes) = file mode time bytes

unfoldable pub with_time : ℕ → Node → Node
with_time time absent = absent
with_time time (link target) = link target
with_time time (directory mode parent entries) = directory mode parent entries
with_time time (file mode old bytes) = file mode time bytes

unfoldable pub change_file : Kernel → (Node → Node) → ℕ → Fs → Fs
unfolding set_node before
change_file k change i fs = let now = before k fs in set_node i (change (now.nodes i)) now

unfoldable pub finish_file : Kernel → ℕ → ℕ → Fs → Fs × Option DownloadError
unfolding change_file with_time before
finish_file k i time fs =
    let now = before k fs in
    if k.refuses now then (now, some times_error) else (change_file k (with_time time) i now, none)

unfoldable pub keep_mode : Kernel → ℕ → ℕ → Option ℕ → Fs → Fs × Option DownloadError
unfolding finish_file change_file with_mode before
keep_mode k i time none fs = finish_file k i time fs
keep_mode k i time (some mode) fs =
    let now = before k fs in
    if k.refuses now
    then (now, some chmod_error)
    else finish_file k i time (change_file k (with_mode mode) i now)

-- The deferred close of the file.
unfoldable pub closing : ℕ → Fs × Option DownloadError → Fs × Option DownloadError
unfolding close_dir
closing i (fs, e) = (close_dir (sub_dir i) fs, e)

unfoldable pub fill_file : Kernel → RemoteFile → ℕ → Fs × FileResult → Fs × Option DownloadError
unfolding closing keep_mode change_file filled
fill_file k r time (fs, file_failed f) = (fs, some (create_error f))
fill_file k r time (fs, file_opened i) =
    let copied = change_file k (filled r.bytes) i fs in
    closing i
      (if r.ends_well then keep_mode k i time r.mode_after copied else (copied, some copy_error))

-- downloadFile: the number of bytes is that of the remote file, if there is no error.
unfoldable pub download_file : Kernel → ℕ → RemoteFile → Bytes → ℕ → Fs → Fs × Option DownloadError
unfolding fill_file open_file
download_file k root r rel time fs =
    if r.opens then fill_file k r time (open_file k root rel 384 fs) else (fs, some open_error)

-- The skip of a file with the same size and second of modification.
unfoldable pub unchanged : FileInfo → Stat → Bool
unchanged e missing = false
unchanged e stat_failed = false
unchanged e (found look) = look.size == e.size && look.mod_time == e.mod_time

-- The loop of Download; `next` is the rest of it, and the number is the bytes so far.
abbrev pub Rest : Type 0
Rest = Fs → ℕ → Fs × ℕ × Option DownloadError

unfoldable pub after_file :
    Rest → ℕ → RemoteFile → Fs × Option DownloadError → Fs × ℕ × Option DownloadError
after_file next total r (fs, some e) = (fs, total, some e)
after_file next total r (fs, none) = next fs (total + length r.bytes)

unfoldable pub after_local : Rest → ℕ → Fs × Option Unsafe → Fs × ℕ × Option DownloadError
after_local next total (fs, some u) = (fs, total, some (unsafe_dir u))
after_local next total (fs, none) = next fs total

unfoldable pub after_ensure :
    Host → Rest → AbsPath → ℕ → ℕ → Fs × Option Failure → Fs × ℕ × Option DownloadError
unfolding after_local ensure_safe_local_dir
after_ensure h next target mode total (fs, some f) = (fs, total, some (dir_error f))
after_ensure h next target mode total (fs, none) =
    after_local next total (ensure_safe_local_dir h target mode fs)

unfoldable pub fetch :
    Kernel
    → Host
    → ℕ
    → Rest
    → Bytes
    → AbsPath
    → FileInfo
    → RemoteFile
    → Fs
    → ℕ
    → Fs × ℕ × Option DownloadError
unfolding after_ensure after_file unchanged download_file ensure_dir
fetch k h root next rel target e r fs total =
    if e.is_dir
    then after_ensure h next target e.mode total (ensure_dir k root rel e.mode fs)
    else if unchanged e (h.stat fs target)
    then next fs total
    else after_file next total r (download_file k root r rel e.mod_time fs)

unfoldable pub fetch_checked :
    Kernel
    → Host
    → ℕ
    → Rest
    → Bytes
    → AbsPath
    → FileInfo
    → RemoteFile
    → Fs
    → ℕ
    → Option Unsafe
    → Fs × ℕ × Option DownloadError
unfolding fetch
fetch_checked k h root next rel target e r fs total (some u) = (fs, total, some (unsafe_target u))
fetch_checked k h root next rel target e r fs total none =
    fetch k h root next rel target e r fs total

abbrev pub is_dot : Bytes → Bool
is_dot [] = false
is_dot (c ∷ []) = c == b'.'
is_dot (c ∷ d ∷ s) = false

-- The root as prepareDownloadRoot gives it, and its open descriptor.
pub record Target : Type 0 where
  pub root : ℕ
  pub root_abs : AbsPath
  pub root_resolved : AbsPath

unfoldable pub walk_step : Kernel → Host → Target → Rest → Step → Rest
unfolding fetch_checked safe_local_download_path join check_path_traversal
walk_step k h t next walk_error fs total = (fs, total, some walker_failed)
walk_step k h t next (visits none e r) fs total = (fs, total, some no_rel)
walk_step k h t next (visits (some rel) e r) fs total =
    if not (check_path_traversal rel)
    then (fs, total, some escapes)
    else if is_dot rel
    then next fs total
    else fetch_checked k h t.root next rel (join t.root_abs rel) e r fs total
        (safe_local_download_path h fs t.root_abs t.root_resolved (join t.root_abs rel))

unfoldable pub download_walk : Kernel → Host → Target → List Step → Rest
unfolding walk_step
download_walk k h t [] fs total = (fs, total, none)
download_walk k h t (step ∷ steps) fs total =
    walk_step k h t (download_walk k h t steps) step fs total

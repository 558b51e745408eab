-- ===== src/Transfer/Service.antt =====
-- internal/transfer/sftp.go: Service, the target of a download, and the download of a single file.
pub mod Careful
use agmux.Base.{
  ℕ, ◌||◌, Option, none, some, Bool, true, false, List, [], ◌∷◌, ◌++◌, if◌then◌else◌, Bytes, length,
  ◌==◌,
}
use agmux.Session.{Session, ssh, local}
use agmux.Manager.Await.{AwaitResult, got_client, not_connected, timed_out, waiting}
use agmux.Server.Handlers.{Transferred, transfer_error, transferred}
use agmux.Transfer.{clean, clean_parts, split_path, is_rooted}
use agmux.Transfer.Kernel.{Fs, Kernel}
use agmux.Transfer.SafeRoot.{base_of}
use agmux.Transfer.Paths.{
  AbsPath, Look, Stat, Host, Unsafe, Root, root_error, root_paths, prepare_download_root,
  prepare_single_file_target, safe_local_download_path, without_last,
}
use agmux.Transfer.Download.{
  FileInfo, RemoteFile, DownloadError, Step, Target, unsafe_target, download_file, download_walk,
}
use agmux.Transfer.Upload.{trim_slash, is_directory}

-- filepath.Abs
unfoldable pub absolute : AbsPath → Bytes → AbsPath
unfolding clean_parts split_path is_rooted
absolute cwd path =
    if is_rooted path
    then clean_parts true [] (split_path path)
    else clean_parts true [] (cwd ++ split_path path)

-- resolveDownloadFileTarget
unfoldable pub or_whole : Bytes → Option Bytes → Bytes
or_whole path none = path
or_whole path (some trimmed) = trimmed

unfoldable pub ends_in_slash : Option Bytes → Bool
ends_in_slash none = false
ends_in_slash (some trimmed) = true

unfoldable pub join_local : Bytes → Bytes → Bytes
unfolding clean
join_local [] base = clean base
join_local (c ∷ path) base = clean ((c ∷ path) ++ b'/' ∷ base)

unfoldable pub resolve_download_file_target : (Bytes → Stat) → Bytes → Bytes → Bytes
unfolding trim_slash or_whole ends_in_slash join_local is_directory base_of
resolve_download_file_target stat local_path remote_path =
    let base = base_of (or_whole remote_path (trim_slash remote_path)) in
    if ends_in_slash (trim_slash local_path) || is_directory (stat local_path)
    then join_local local_path base
    else local_path

-- How sftpSession.Download ends: `no_root` is an error of openSafeRoot.
pub data Downloaded : Type 0 where
  not_prepared : Unsafe → Downloaded
  no_root : Downloaded
  ended : ℕ → Option DownloadError → Downloaded

-- openSafeRoot by a path, and the close of the root, are parts of the host.
pub record Roots : Type 0 where
  pub open_root : Fs → AbsPath → Fs × Option ℕ
  pub close_root : Fs → Fs

unfoldable pub close_after : Roots → Fs × ℕ × Option DownloadError → Fs × Downloaded
close_after o (fs, total, e) = (o.close_root fs, ended total e)

-- The bytes of a single file count if there is no error.
unfoldable pub file_total : ℕ → Fs × Option DownloadError → Fs × ℕ × Option DownloadError
file_total size (fs, some e) = (fs, 0, some e)
file_total size (fs, none) = (fs, size, none)

unfoldable pub single_in_root :
    Kernel → Roots → RemoteFile → Bytes → ℕ → Fs × Option ℕ → Fs × Downloaded
unfolding close_after file_total download_file
single_in_root k o r name time (fs, none) = (fs, no_root)
single_in_root k o r name time (fs, some root) =
    close_after o (file_total (length r.bytes) (download_file k root r name time fs))

unfoldable pub single_checked :
    Kernel → Roots → RemoteFile → Bytes → ℕ → AbsPath → Fs → Option Unsafe → Fs × Downloaded
unfolding single_in_root
single_checked k o r name time root_abs fs (some u) = (fs, ended 0 (some (unsafe_target u)))
single_checked k o r name time root_abs fs none =
    single_in_root k o r name time (o.open_root fs root_abs)

-- The name is that of the clean target.
abbrev pub name_of : AbsPath → Bytes
name_of [] = b'/' ∷ []
name_of (name ∷ []) = name
name_of (name ∷ next ∷ path) = name_of (next ∷ path)

unfoldable pub single_prepared :
    Kernel → Host → Roots → RemoteFile → ℕ → AbsPath → Fs × Root → Fs × Downloaded
unfolding single_checked safe_local_download_path
single_prepared k h o r time target (fs, root_error u) = (fs, not_prepared u)
single_prepared k h o r time target (fs, root_paths root_abs root_resolved) =
    single_checked k o r (name_of target) time root_abs fs
      (safe_local_download_path h fs root_abs root_resolved target)

-- Download of a file that is no directory, to the target
unfoldable pub download_single :
    Kernel → Host → Roots → RemoteFile → ℕ → AbsPath → Fs → Fs × Downloaded
unfolding single_prepared prepare_single_file_target
download_single k h o r time target fs =
    single_prepared k h o r time target (prepare_single_file_target h target fs)

-- Download of a directory
unfoldable pub walk_in_root :
    Kernel → Host → Roots → AbsPath → AbsPath → List Step → Fs × Option ℕ → Fs × Downloaded
unfolding close_after download_walk
walk_in_root k h o root_abs root_resolved steps (fs, none) = (fs, no_root)
walk_in_root k h o root_abs root_resolved steps (fs, some root) = close_after o (
    download_walk k h (record { root = root; root_abs = root_abs; root_resolved = root_resolved })
      steps fs 0)

unfoldable pub walk_prepared : Kernel → Host → Roots → List Step → Fs × Root → Fs × Downloaded
unfolding walk_in_root
walk_prepared k h o steps (fs, root_error u) = (fs, not_prepared u)
walk_prepared k h o steps (fs, root_paths root_abs root_resolved) =
    walk_in_root k h o root_abs root_resolved steps (o.open_root fs root_abs)

unfoldable pub download_directory :
    Kernel → Host → Roots → List Step → AbsPath → Fs → Fs × Downloaded
unfolding walk_prepared prepare_download_root
download_directory k h o steps path fs = walk_prepared k h o steps (prepare_download_root h path fs)

-- getSFTPSession: the session by its name, its client within the timeout, and sftp.NewClient.
pub data SessionError : Type 0 where
  unknown_session sftp_on_local not_ready_in_time no_sftp_client : SessionError

unfoldable pub sftp_client : Bool → Option SessionError
sftp_client true = none
sftp_client false = some no_sftp_client

unfoldable pub awaited_client : Bool → AwaitResult → Option SessionError
unfolding sftp_client
awaited_client starts (got_client client) = sftp_client starts
awaited_client starts (not_connected status) = some not_ready_in_time
awaited_client starts timed_out = some not_ready_in_time
awaited_client starts waiting = some not_ready_in_time

unfoldable pub get_sftp_session : Option Session → AwaitResult → Bool → Option SessionError
unfolding awaited_client
get_sftp_session none await starts = some unknown_session
get_sftp_session (some (local l)) await starts = some sftp_on_local
get_sftp_session (some (ssh s)) await starts = awaited_client starts await

-- Service.Upload and Service.Download: an error of the transfer is a result that says so.
unfoldable pub transfer_result : Option SessionError → Bytes → ℕ → Bool → Transferred
transfer_result (some e) message bytes works = transfer_error
transfer_result none message bytes works = transferred works message bytes

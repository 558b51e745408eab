-- ===== src/Transfer/Upload.antt =====
-- internal/transfer/sftp.go: uploads. The server is a state and the operations of github.com/pkg/sftp
-- on it; what filepath.Walk meets is a list of visits.
pub mod Again
use agmux.Base.{
  ℕ, ◌+◌, ◌==◌, ◌&&◌, ◌||◌, not, Option, none, some, Bool, true, false, List, [], ◌∷◌, ◌++◌,
  if◌then◌else◌, Bytes, length,
}
use agmux.CommandLine.{split_last}
use agmux.Transfer.{clean, is_skipped}
use agmux.Transfer.SafeRoot.{dir_of, base_of}
use agmux.Transfer.Paths.{Look, Stat, missing, stat_failed, found}
use agmux.Transfer.Download.{FileInfo, unchanged}

-- The Boolean says whether the call succeeded.
pub record Sftp (R : Type 0) : Type 0 where
  pub stat : R → Bytes → Stat
  pub mkdir_all : R → Bytes → R × Bool
  pub create : R → Bytes → R × Bool
  pub copy_to : R → Bytes → Bytes → R × Bool
  pub chmod : R → Bytes → ℕ → R × Bool
  pub chtimes : R → Bytes → ℕ → R × Bool

-- A local file once it is opened: its mode if Stat works, its bytes, and whether they end well.
pub record LocalFile : Type 0 where
  pub opens : Bool
  pub file_mode : Option ℕ
  pub content : Bytes
  pub ends_well : Bool

pub data Visit : Type 0 where
  walk_error no_rel : Visit
  visit : Bytes → FileInfo → LocalFile → Visit

pub data UploadError : Type 0 where
  walk_failed mkdir_failed open_failed stat_error parent_failed create_failed copy_failed :
      UploadError
  mode_failed times_failed not_a_directory : UploadError

-- resolveUploadFileTarget
unfoldable pub trim_slash : Bytes → Option Bytes
trim_slash [] = none
trim_slash (c ∷ []) = if c == b'/' then some [] else none
trim_slash (c ∷ d ∷ s) = elim (trim_slash (d ∷ s)) [ some t ↦ some (c ∷ t) | none ↦ none ]

unfoldable pub is_directory : Stat → Bool
is_directory missing = false
is_directory stat_failed = false
is_directory (found look) = look.is_dir

unfoldable pub into_dir : Bytes → Bytes → Bytes
into_dir dir base = dir ++ b'/' ∷ base

unfoldable pub target_at : (Bytes → Stat) → Bytes → Bytes → Option Bytes → Option Bytes
unfolding is_directory into_dir
target_at stat base remote (some dir) =
    if is_directory (stat dir) then some (into_dir dir base) else none
target_at stat base remote none =
    if is_directory (stat remote) then some (into_dir remote base) else some remote

unfoldable pub resolve_upload_file_target : (Bytes → Stat) → Bytes → Bytes → Option Bytes
unfolding target_at trim_slash base_of is_skipped
resolve_upload_file_target stat local_path remote =
    if is_skipped remote
    then some (base_of local_path)
    else target_at stat (base_of local_path) remote (trim_slash remote)

-- filepath.Join of the remote path and a relative one
unfoldable pub join_remote : Bytes → Bytes → Bytes
unfolding clean
join_remote [] rel = clean rel
join_remote (c ∷ remote) rel = clean ((c ∷ remote) ++ b'/' ∷ rel)

module _ {R : Type 0} (s : Sftp R) where
  -- A call, and what follows if it succeeds.
  unfoldable pub attempt :
      R × Bool → UploadError → (R → R × Option UploadError) → R × Option UploadError
  attempt (r, false) e next = (r, some e)
  attempt (r, true) e next = next r

  unfoldable pub send_file : Bytes → LocalFile → Option ℕ → R → R × Option UploadError
  unfolding attempt dir_of
  send_file target l none r = (r, some stat_error)
  send_file target l (some mode) r = attempt (s.mkdir_all r (dir_of target)) parent_failed (λ a.
      attempt (s.create a target) create_failed (λ b.
        attempt ((s.copy_to b target l.content).0, (s.copy_to b target l.content).1 && l.ends_well)
          copy_failed (λ c. attempt (s.chmod c target mode) mode_failed (λ d. (d, none)))))

  -- uploadFile: without an error it has written all the bytes of the file.
  unfoldable pub upload_file : Bytes → LocalFile → R → R × Option UploadError
  unfolding send_file
  upload_file target l r =
      if l.opens then send_file target l l.file_mode r else (r, some open_failed)

  -- The walk of Upload; the number is the bytes so far.
  abbrev pub UploadRest : Type 0
  UploadRest = R → ℕ → R × ℕ × Option UploadError

  unfoldable pub after_times : UploadRest → ℕ → R × Bool → R × ℕ × Option UploadError
  after_times next total (r, false) = (r, total, some times_failed)
  after_times next total (r, true) = next r total

  unfoldable pub after_upload :
      UploadRest → Bytes → FileInfo → ℕ → ℕ → R × Option UploadError → R × ℕ × Option UploadError
  unfolding after_times
  after_upload next target e total size (r, some f) = (r, total, some f)
  after_upload next target e total size (r, none) =
      after_times next (total + size) (s.chtimes r target e.mod_time)

  unfoldable pub after_mkdir_all : UploadRest → ℕ → R × Bool → R × ℕ × Option UploadError
  after_mkdir_all next total (r, false) = (r, total, some mkdir_failed)
  after_mkdir_all next total (r, true) = next r total

  unfoldable pub send_entry : UploadRest → Bytes → FileInfo → LocalFile → UploadRest
  unfolding after_mkdir_all after_upload upload_file unchanged
  send_entry next target e l r total =
      if e.is_dir
      then after_mkdir_all next total (s.mkdir_all r target)
      else if unchanged e (s.stat r target)
      then next r total
      else after_upload next target e total (length l.content) (upload_file target l r)

  unfoldable pub upload_step : Bytes → UploadRest → Visit → UploadRest
  unfolding send_entry join_remote
  upload_step remote next walk_error r total = (r, total, some walk_failed)
  upload_step remote next no_rel r total = (r, total, some walk_failed)
  upload_step remote next (visit rel e l) r total =
      send_entry next (join_remote remote rel) e l r total

  unfoldable pub upload_walk : Bytes → List Visit → UploadRest
  unfolding upload_step
  upload_walk remote [] r total = (r, total, none)
  upload_walk remote (v ∷ visits) r total = upload_step remote (upload_walk remote visits) v r total

  -- Upload of a file that is no directory
  unfoldable pub upload_single_to : LocalFile → Option Bytes → R → R × ℕ × Option UploadError
  unfolding upload_file
  upload_single_to l none r = (r, 0, some not_a_directory)
  upload_single_to l (some target) r =
      let sent = upload_file target l r in
      (sent.0, elim sent.1 [ some f ↦ 0 | none ↦ length l.content ], sent.1)

  unfoldable pub upload_single : Bytes → Bytes → LocalFile → R → R × ℕ × Option UploadError
  unfolding upload_single_to resolve_upload_file_target
  upload_single local_path remote l r =
      upload_single_to l (resolve_upload_file_target (s.stat r) local_path remote) r

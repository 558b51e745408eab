-- ===== src/Transfer/Upload/Again.antt =====
-- That an upload which is done again sends nothing.
pub mod Kept
use agmux.Base.{◌≡◌, ◌≢◌, ◌⊎◌, ◌&&◌, true, false, Bytes, length}
use agmux.Transfer.SafeRoot.{dir_of}
use agmux.Transfer.Paths.{Look, found}
use agmux.Transfer.Upload.{Sftp, Visit, walk_error, no_rel, visit, join_remote, attempt, send_file}
use agmux.Transfer.Upload.Again.Kept.{HasFile, KeepsFiles}

module _ {R : Type 0} (s : Sftp R) (laws : KeepsFiles s) (remote : Bytes) where
  -- The directories were made, and each file stands at its target with its size and time.
  abbrev pub IsSent : R → Visit → Type 0
  IsSent r walk_error = Unit
  IsSent r no_rel = Unit
  IsSent r (visit rel e l) =
      (e.is_dir ≡ true) ⊎ HasFile (s.stat r (join_remote remote rel)) e.size e.mod_time

  -- A directory, or a file that has the size that Walk saw, and to whose target no directory stands in
  -- any state of the server.
  abbrev pub IsPlainFile : Visit → Type 0
  IsPlainFile walk_error = Unit
  IsPlainFile no_rel = Unit
  IsPlainFile (visit rel e l) =
      (e.is_dir ≡ true)
      ⊎ ((length l.content ≡ e.size)
          × ((r : R) (look : Look)
              → s.stat r (join_remote remote rel) ≡ found look
              → look.is_dir ≡ false))

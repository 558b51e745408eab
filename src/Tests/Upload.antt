-- ===== src/Tests/Upload.antt =====
-- A directory with one file, sent twice to a server that keeps the size and time of each file.
use agmux.Base.{
  ℕ, Option, none, some, Bool, true, false, List, [], ◌∷◌, if◌then◌else◌, Bytes, codes, length,
  bytes_eq,
}
use agmux.Transfer.Paths.{Stat, missing, found}
use agmux.Transfer.Download.{FileInfo}
use agmux.Transfer.Upload.{Sftp, LocalFile, Visit, visit}

abbrev Files : Type 0
Files = Bytes → Option (ℕ × ℕ)

abbrev as_stat : Option (ℕ × ℕ) → Stat
as_stat none = missing
as_stat (some (size, time)) =
    found (record { is_dir = false; is_symlink = false; size = size; mod_time = time })

unfoldable put : Bytes → ℕ × ℕ → Files → Files
put p v r q = if bytes_eq p q then some v else r q

unfoldable retime : Bytes → ℕ → Files → Option (ℕ × ℕ) → Files × Bool
retime p u r none = (r, false)
retime p u r (some (size, time)) = (put p (size, u) r, true)

abbrev server : Sftp Files
server = record {
  stat = λ r q. as_stat (r q);
  mkdir_all = λ r p. (r, true);
  create = λ r p. (put p (0, 0) r, true);
  copy_to = λ r p b. (put p (length b, 0) r, true);
  chmod = λ r p m. (r, true);
  chtimes = λ r p u. retime p u r (r p);
}

abbrev info : Bool → ℕ → FileInfo
info is_dir size = record { is_dir = is_dir; size = size; mod_time = 7; mode = 420 }

abbrev content : LocalFile
content = record { opens = true; file_mode = some 420; content = codes "hello"; ends_well = true }

abbrev tree : List Visit
tree = visit (codes ".") (info true 0) content ∷ visit (codes "f") (info false 5) content ∷ []

abbrev empty_server : Files
empty_server q = none

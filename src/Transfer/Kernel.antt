-- ===== src/Transfer/Kernel.antt =====
-- The system calls of internal/transfer/safefile_unix.go: a file system of numbered nodes, in which
-- other processes act before each call and the kernel may refuse it.
pub mod Inside
use agmux.Base.{
  ℕ, suc, ◌-◌, Option, none, some, Bool, true, false, ◌||◌, ◌==◌, ◌&&◌, List, [], ◌∷◌,
  if◌then◌else◌, Bytes, contains, update, bytes_eq,
}
use agmux.Transfer.{is_skipped, is_up}

-- A file has a mode, a modification time and its bytes; a link has a target; a directory has a mode,
-- the node that ".." leads to, and its entries.
pub data Node : Type 0 where
  absent : Node
  file : ℕ → ℕ → Bytes → Node
  link : Bytes → Node
  directory : ℕ → ℕ → List (Bytes × ℕ) → Node

-- `opened` counts the descriptors of this process.
pub record Fs : Type 0 where
  pub nodes : ℕ → Node
  pub fresh : ℕ
  pub calls : ℕ
  pub opened : ℕ

pub record Kernel : Type 0 where
  pub others : Fs → Fs
  pub refuses : Fs → Bool

pub data Errno : Type 0 where
  exists not_found not_dir is_dir is_link refused : Errno

pub data Opened : Type 0 where
  got : ℕ → Opened
  failed : Errno → Opened

unfoldable pub find_entry : Bytes → List (Bytes × ℕ) → Option ℕ
unfolding bytes_eq
find_entry name [] = none
find_entry name (e ∷ entries) = if bytes_eq e.0 name then some e.1 else find_entry name entries

unfoldable pub before : Kernel → Fs → Fs
before k fs = k.others (record fs { calls = suc fs.calls })

unfoldable pub set_node : ℕ → Node → Fs → Fs
set_node i node fs = record fs { nodes = update fs.nodes i node }

-- A new node, and its entry in the directory.
unfoldable pub add_node : ℕ → ℕ → ℕ → List (Bytes × ℕ) → Bytes → Node → Fs → Fs
unfolding set_node
add_node dir mode parent entries name node fs =
    set_node dir (directory mode parent ((name, fs.fresh) ∷ entries))
      (record (set_node fs.fresh node fs) { fresh = suc fs.fresh })

-- mkdirat
unfoldable pub make_entry :
    ℕ → ℕ → ℕ → List (Bytes × ℕ) → Bytes → ℕ → Option ℕ → Fs → Fs × Option Errno
unfolding add_node
make_entry dir mode parent entries name perm (some i) fs = (fs, some exists)
make_entry dir mode parent entries name perm none fs =
    (add_node dir mode parent entries name (directory perm dir []) fs, none)

unfoldable pub make_in : ℕ → Bytes → ℕ → Node → Fs → Fs × Option Errno
unfolding make_entry find_entry is_skipped is_up
make_in dir name perm absent fs = (fs, some not_found)
make_in dir name perm (file mode time bytes) fs = (fs, some not_dir)
make_in dir name perm (link target) fs = (fs, some not_dir)
make_in dir name perm (directory mode parent entries) fs =
    if is_skipped name || is_up name
    then (fs, some exists)
    else make_entry dir mode parent entries name perm (find_entry name entries) fs

unfoldable pub mkdirat : Kernel → ℕ → Bytes → ℕ → Fs → Fs × Option Errno
unfolding make_in before
mkdirat k dir name perm fs =
    let now = before k fs in
    if k.refuses now then (now, some refused) else make_in dir name perm (now.nodes dir) now

-- Where a single name leads.
unfoldable pub step_into : ℕ → Bytes → Node → Option ℕ
unfolding find_entry is_skipped is_up
step_into dir name absent = none
step_into dir name (file mode time bytes) = none
step_into dir name (link target) = none
step_into dir name (directory mode parent entries) =
    if is_skipped name
    then some dir
    else if is_up name
    then some parent
    else find_entry name entries

-- openat with O_DIRECTORY and O_NOFOLLOW
unfoldable pub open_node : ℕ → Node → Fs → Fs × Opened
open_node i absent fs = (fs, failed not_found)
open_node i (file mode time bytes) fs = (fs, failed not_dir)
open_node i (link target) fs = (fs, failed is_link)
open_node i (directory mode parent entries) fs = (record fs { opened = suc fs.opened }, got i)

unfoldable pub open_found : Option ℕ → Fs → Fs × Opened
unfolding open_node
open_found none fs = (fs, failed not_found)
open_found (some i) fs = open_node i (fs.nodes i) fs

unfoldable pub openat_dir : Kernel → ℕ → Bytes → Fs → Fs × Opened
unfolding open_found step_into before
openat_dir k dir name fs =
    let now = before k fs in
    if k.refuses now
    then (now, failed refused)
    else open_found (step_into dir name (now.nodes dir)) now

-- openat with O_CREAT, O_WRONLY, O_TRUNC and O_NOFOLLOW
unfoldable pub truncate : ℕ → Node → Fs → Fs × Opened
unfolding set_node
truncate i absent fs = (fs, failed not_found)
truncate i (link target) fs = (fs, failed is_link)
truncate i (directory mode parent entries) fs = (fs, failed is_dir)
truncate i (file mode time bytes) fs =
    (record (set_node i (file mode time []) fs) { opened = suc fs.opened }, got i)

unfoldable pub create_entry : ℕ → ℕ → ℕ → List (Bytes × ℕ) → Bytes → ℕ → Option ℕ → Fs → Fs × Opened
unfolding truncate add_node
create_entry dir mode parent entries name perm (some i) fs = truncate i (fs.nodes i) fs
create_entry dir mode parent entries name perm none fs = (
  record (add_node dir mode parent entries name (file perm 0 []) fs) { opened = suc fs.opened },
  got fs.fresh,
)

unfoldable pub create_in : ℕ → Bytes → ℕ → Node → Fs → Fs × Opened
unfolding create_entry find_entry
create_in dir name perm absent fs = (fs, failed not_found)
create_in dir name perm (file mode time bytes) fs = (fs, failed not_dir)
create_in dir name perm (link target) fs = (fs, failed not_dir)
create_in dir name perm (directory mode parent entries) fs =
    create_entry dir mode parent entries name perm (find_entry name entries) fs

-- The only name with a slash that is asked for is that of the root of the file system.
unfoldable pub openat_file : Kernel → ℕ → Bytes → ℕ → Fs → Fs × Opened
unfolding create_in before is_skipped is_up contains
openat_file k dir name perm fs =
    let now = before k fs in
    if k.refuses now
    then (now, failed refused)
    else if is_skipped name || is_up name || contains name b'/'
    then (now, failed is_dir)
    else create_in dir name perm (now.nodes dir) now

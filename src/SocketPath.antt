-- ===== src/SocketPath.antt =====
-- internal/socketpath/path.go: the socket file. What stands at a path is read from the file system;
-- path/filepath is not modelled, so the names are words joined by the caller's function.
pub mod Safety
use agmux.Base.{
  ℕ, ◌%◌, ◌==◌, ◌≡◌, Option, none, some, Bool, true, false, not, ◌&&◌, List, [], ◌∷◌, ◌++◌,
  if◌then◌else◌, String, str_eq,
}

-- Lstat: the owner is `none` where it cannot be inspected; `mode` is the permission bits.
pub record Info : Type 0 where
  pub is_socket : Bool
  pub is_dir : Bool
  pub mode : ℕ
  pub owner : Option ℕ

pub data Stat : Type 0 where
  missing stat_failed : Stat
  found : Info → Stat

pub data Refusal : Type 0 where
  does_not_exist inspect_failed not_a_socket too_broad no_owner other_owner : Refusal
  not_a_directory mkdir_failed remove_failed : Refusal

unfoldable pub check_owner : ℕ → Option ℕ → Option Refusal
check_owner uid none = some no_owner
check_owner uid (some owner) = if not (owner == uid) then some other_owner else none

-- Validate: `none` is no error. The bits of 0077 are the six low ones.
unfoldable pub validate : ℕ → Stat → Option Refusal
unfolding check_owner
validate uid missing = some does_not_exist
validate uid stat_failed = some inspect_failed
validate uid (found i) =
    if not i.is_socket
    then some not_a_socket
    else if not (i.mode % 64 == 0)
    then some too_broad
    else check_owner uid i.owner

-- What os.Remove does to the path.
unfoldable pub remove : Bool → Stat → Stat × Option Refusal
remove true s = (missing, none)
remove false s = (s, some remove_failed)

unfoldable pub remove_checked : Bool → Stat → Option Refusal → Stat × Option Refusal
unfolding remove
remove_checked removes s (some e) = (s, some e)
remove_checked removes s none = remove removes s

-- RemoveIfOwnedSocket
unfoldable pub remove_if_owned_socket : ℕ → Bool → Stat → Stat × Option Refusal
unfolding remove_checked check_owner
remove_if_owned_socket uid removes missing = (missing, none)
remove_if_owned_socket uid removes stat_failed = (stat_failed, some inspect_failed)
remove_if_owned_socket uid removes (found i) =
    if not i.is_socket
    then (found i, some not_a_socket)
    else remove_checked removes (found i) (check_owner uid i.owner)

-- EnsureParentDir: what stands at the parent, and an error; a new directory has the mode 0700.
unfoldable pub ensure_parent_dir : ℕ → Bool → Stat → Stat × Option Refusal
ensure_parent_dir uid makes missing =
    if makes
    then (found (record { is_socket = false; is_dir = true; mode = 448; owner = some uid }), none)
    else (missing, some mkdir_failed)
ensure_parent_dir uid makes stat_failed = (stat_failed, some inspect_failed)
ensure_parent_dir uid makes (found i) = (found i, if i.is_dir then none else some not_a_directory)

abbrev pub new_socket : ℕ → Stat
new_socket uid = found (record { is_socket = true; is_dir = false; mode = 384; owner = some uid })

-- net.Listen on the free path, then os.Chmod to 0600.
unfoldable pub listen_and_chmod : ℕ → Bool → Bool → Stat × Option Refusal → Stat × Bool
listen_and_chmod uid listens chmods (s, some e) = (s, false)
listen_and_chmod uid listens false (s, none) = (s, false)
listen_and_chmod uid false true (s, none) = (s, false)
listen_and_chmod uid true true (s, none) = (new_socket uid, true)

-- The start of Server.Start: the socket path after it, and whether the server listens.
unfoldable pub prepare : ℕ → Bool → Bool → Bool → Stat → Stat × Bool
unfolding listen_and_chmod
prepare uid removes listens chmods s =
    listen_and_chmod uid listens chmods (remove_if_owned_socket uid removes s)

-- ===== src/Tests/Transfer.antt =====
-- Downloads at concrete inputs: a root that holds a directory, beside a file that is outside.
use agmux.Base.{
  bytes_eq, ℕ, zero, suc, ◌+◌, ◌≤◌, ◌≡◌, ◌≢◌, ◌↔◌, ◌⊎◌, inl, inr, refl, none, some, true, false,
  ◌==◌, List, [], ◌∷◌, if◌then◌else◌, Bytes, codes, arith, Bool-cases,
}
use agmux.Transfer.{
  split_path, push_byte, join_path, is_skipped, is_up, starts_up, is_rooted, climb, clean_part,
  backwards, clean_parts, or_dot, clean, rel_of, clean_rel_path, check_path_traversal,
}
use agmux.Transfer.Lexical.{clean_rel_path-stays}
use agmux.Transfer.Lexical.Local.{check_path_traversal-clean_rel_path}
use agmux.Transfer.Lexical.Cleans.{stays}
use agmux.Transfer.Kernel.{
  Node, absent, file, link, directory, Fs, Kernel, find_entry, set_node, is_link, mkdirat,
  openat_dir, openat_file,
}
use agmux.Transfer.Kernel.Inside.{IsClosed, IsSafe, AreConfined, Leads, IsSafe-set_node}
use agmux.Transfer.SafeRoot.{
  system, file_opened, file_failed, open_file, open_file_rel, open_ensured, open_in_parent,
  ensure_dir, ensure_rel, ensure_parts, ensure_part, after_mkdir, enter, blocks, open_dir, open_rel,
  open_parts, open_next, close_dir, dir_of, base_of, wrap, through_slash, strip_slashes, last_name,
}
use agmux.CommandLine.{split_last}
use agmux.Transfer.Paths.{
  AbsPath, missing, Host, Resolved, resolved, not_there, parent, endless, path_escapes_root,
  rel_names, leads_out, resolve_loop, climb_on, resolve_existing_parent, without_last, check_parent,
  inspect, safe_local_download_path,
}
use agmux.Transfer.Service.{Roots}
use agmux.Transfer.Paths.Under.{IsUnder, path_escapes_root-IsUnder}
use agmux.Transfer.Paths.Parents.{Nearest, resolve_existing_parent-Nearest}
use agmux.Transfer.Paths.Targets.{IsPlain, safe_local_download_path-IsUnder}
use agmux.Transfer.Download.{FileInfo, RemoteFile, Step, visits}
use agmux.Transfer.SafeRoot.Inside.{open_file-IsInside}
use agmux.Transfer.SafeRoot.Descriptors.{one_if_file, open_file-opened}
use agmux.Transfer.SafeRoot.Descriptors.Calls.{KeepDescriptors}

cleaned : clean_rel_path (codes "a//./b/../c") ≡ some (codes "a/c")
unfolding clean_rel_path clean rel_of clean_parts clean_part climb backwards split_path push_byte
    join_path is_skipped is_up starts_up is_rooted or_dot
cleaned = refl

refused_path : clean_rel_path (codes "a/../../b") ≡ none
unfolding clean_rel_path clean rel_of clean_parts clean_part climb backwards split_path push_byte
    join_path is_skipped is_up starts_up is_rooted or_dot
refused_path = refl

clean_rel_path-stays_example :
    (clean_rel_path (codes "a/../b") ≢ none)
    ↔ ((is_rooted (codes "a/../b") ≡ true) ⊎ (stays 0 (split_path (codes "a/../b")) ≡ true))
clean_rel_path-stays_example = clean_rel_path-stays (codes "a/../b")

check_path_traversal-clean_rel_path_example : (check_path_traversal (codes "a/../../b") ≡ true) ↔ (
    (codes "a/../../b" ≢ [])
    × (is_rooted (codes "a/../../b") ≡ false)
    × (clean_rel_path (codes "a/../../b") ≢ none))
check_path_traversal-clean_rel_path_example =
    check_path_traversal-clean_rel_path (codes "a/../../b")

-- Node 0 is a file outside; the root is node 1, its ".." is outside, and it has the directory "a".
abbrev start_nodes : ℕ → Node
start_nodes zero = file 420 0 (codes "secret")
start_nodes (suc zero) = directory 493 0 ((codes "a", 2) ∷ [])
start_nodes (suc (suc zero)) = directory 493 1 []
start_nodes (suc (suc (suc i))) = absent

abbrev start : Fs
start = record { nodes = start_nodes; fresh = 3; calls = 0; opened = 1 }

abbrev IsInside : ℕ → Type 0
IsInside i = 1 ≤ i

start-IsInside :
    (i mode parent : ℕ) (entries : List (Bytes × ℕ)) (name : Bytes) (j : ℕ)
    → IsInside i
    → start_nodes i ≡ directory mode parent entries
    → find_entry name entries ≡ some j
    → IsInside j
unfolding find_entry
start-IsInside zero m p es name j there e f = cc e
start-IsInside (suc zero) m p es name j there e f =
    let same : (codes "a", 2) ∷ [] ≡ es = cc e in
    elim (Bool-cases (bytes_eq (codes "a") name)) [
      | inl here ↦ (let found : 2 ≡ j = cc (rw (← same, here) at f) in rw (← found) (omega arith))
      | inr away ↦ absurd (cc (rw (← same, away) at f))
    ]
start-IsInside (suc (suc zero)) m p es name j there e f =
    let same : [] ≡ es = cc e in absurd (cc (rw (← same) at f))
start-IsInside (suc (suc (suc i))) m p es name j there e f = cc e

start-IsClosed : IsClosed IsInside start
start-IsClosed = (λ i h. omega (arith, h), start-IsInside)

-- Before the third call another process puts a link to a directory elsewhere in the place of "a".
unfoldable swap : Fs → Fs
swap fs = if fs.calls == 3 then set_node 2 (link (codes "/etc")) fs else fs

abbrev attacked : Kernel
attacked = record { others = swap; refuses = λ fs. false }

link-Leads : (target : Bytes) → Leads IsInside (link target)
link-Leads target m p es name j e f = cc e

attacked-AreConfined : AreConfined IsInside attacked
unfolding swap
attacked-AreConfined fs closed = elim (Bool-cases (fs.calls == 3)) [
  | inl e ↦ rw e (
      IsSafe-set_node IsInside fs 2 (link (codes "/etc")) closed (omega arith)
        (link-Leads (codes "/etc")))
  | inr e ↦ rw e (closed, λ j out. refl)
]

attacked-KeepDescriptors : KeepDescriptors attacked
unfolding swap set_node
attacked-KeepDescriptors fs = elim (Bool-cases (fs.calls == 3)) [
  | inl e ↦ rw e refl
  | inr e ↦ rw e refl
]

-- The link is not followed.
link_refused : (open_file attacked 1 (codes "a/f") 384 start).1 ≡ file_failed (system is_link)
unfolding open_file open_file_rel open_ensured open_in_parent ensure_dir ensure_rel ensure_parts
    ensure_part after_mkdir enter blocks open_dir open_rel open_parts open_next close_dir dir_of
    base_of wrap through_slash strip_slashes last_name swap set_node split_last mkdirat openat_dir
    openat_file clean_rel_path
link_refused = refl

open_file-IsInside_example :
    IsSafe IsInside start (open_file attacked 1 (codes "a/f") 384 start).0
    × ((i : ℕ) → (open_file attacked 1 (codes "a/f") 384 start).1 ≡ file_opened i → IsInside i)
open_file-IsInside_example =
    open_file-IsInside IsInside attacked attacked-AreConfined 1 (omega arith) (codes "a/f") 384
      start start-IsClosed

open_file-opened_example :
    ((open_file attacked 1 (codes "a/f") 384 start).0.opened
      ≡ start.opened + one_if_file (open_file attacked 1 (codes "a/f") 384 start).1)
    × ((ensure_dir attacked 1 (codes "a/f") 384 start).0.opened ≡ start.opened)
open_file-opened_example =
    open_file-opened attacked attacked-KeepDescriptors 1 (codes "a/f") 384 start

-- The directory /d exists and /d/new does not; nothing is a link.
unfoldable eval_paths : AbsPath → Resolved
eval_paths [] = resolved []
eval_paths (name ∷ []) = resolved (name ∷ [])
eval_paths (name ∷ next ∷ path) = not_there

abbrev host : Host
host = record {
  lstat = λ fs path. missing;
  stat = λ fs path. missing;
  eval_symlinks = λ fs path. eval_paths path;
  mkdir_all = λ fs path mode. (fs, false);
}

abbrev dest : AbsPath
dest = codes "d" ∷ []

abbrev target : AbsPath
target = codes "d" ∷ codes "new" ∷ codes "f" ∷ []

parent_found : resolve_existing_parent eval_paths (without_last target) ≡ parent dest
unfolding resolve_existing_parent resolve_loop climb_on backwards eval_paths without_last
parent_found = refl

accepted : safe_local_download_path host start dest dest target ≡ none
unfolding safe_local_download_path check_parent inspect path_escapes_root leads_out rel_names
    bytes_eq is_up resolve_existing_parent resolve_loop climb_on backwards eval_paths without_last
accepted = refl

path_escapes_root-IsUnder_example : (path_escapes_root dest target ≡ false) ↔ IsUnder dest target
path_escapes_root-IsUnder_example =
    path_escapes_root-IsUnder dest target (unfold is_up in (refl, (refl, (refl, tt))))

resolve_existing_parent-Nearest_example :
    (resolve_existing_parent eval_paths target ≢ endless)
    × ((there : AbsPath)
        → resolve_existing_parent eval_paths target ≡ parent there
        → Nearest eval_paths (backwards target []) there)
resolve_existing_parent-Nearest_example = resolve_existing_parent-Nearest eval_paths target

safe_local_download_path-IsUnder_example :
    IsUnder dest target
    × ((there : AbsPath) × Nearest
          (host.eval_symlinks start)
          (backwards (without_last target) [])
          there
        × IsUnder dest there)
    × IsPlain (host.lstat start target)
safe_local_download_path-IsUnder_example =
    safe_local_download_path-IsUnder host start dest dest target accepted

-- A server that offers a file outside, and then one in "a".
abbrev entry : FileInfo
entry = record { is_dir = false; size = 2; mod_time = 7; mode = 420 }

abbrev remote_file : RemoteFile
remote_file = record { opens = true; bytes = codes "hi"; ends_well = true; mode_after = some 420 }

abbrev offers : List Step
offers =
    visits (some (codes "a/f")) entry remote_file
    ∷ visits (some (codes "../secret")) entry remote_file
    ∷ []

abbrev roots : Roots
roots = record { open_root = λ fs path. (fs, some 1); close_root = λ fs. fs }

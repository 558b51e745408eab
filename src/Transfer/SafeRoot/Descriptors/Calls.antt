-- ===== src/Transfer/SafeRoot/Descriptors/Calls.antt =====
-- Which descriptors one system call opens.
use agmux.Base.{
  ℕ, suc, ◌+◌, ◌≡◌, ◌∙◌, refl, Option, none, some, ◌||◌, Bytes, arith, Bool-cases, Option-cases,
  inl, inr, contains,
}
use agmux.Transfer.{is_skipped, is_up}
use agmux.Transfer.Kernel.{
  Node, absent, file, link, directory, Fs, Kernel, Opened, got, failed, find_entry, before,
  set_node, add_node, make_entry, make_in, mkdirat, step_into, open_node, open_found, openat_dir,
  truncate, create_entry, create_in, openat_file,
}

abbrev pub one_if_got : Opened → ℕ
one_if_got (got i) = 1
one_if_got (failed e) = 0

make_in-opened :
    (dir : ℕ) (name : Bytes) (perm : ℕ) (node : Node) (fs : Fs)
    → (make_in dir name perm node fs).0.opened ≡ fs.opened
unfolding make_in make_entry add_node set_node
make_in-opened dir name perm absent fs = refl
make_in-opened dir name perm (file m t b) fs = refl
make_in-opened dir name perm (link t) fs = refl
make_in-opened dir name perm (directory m p es) fs =
    elim (Bool-cases (is_skipped name || is_up name)) [
      | inl e ↦ rw e refl
      | inr e ↦ elim (Option-cases (find_entry name es)) [
        | inl f ↦ rw (e, f) refl
        | inr (i, f) ↦ rw (e, f) refl
      ]
    ]

-- An answer with a descriptor has opened one, another one none.
abbrev pub Counts : ℕ → Fs × Opened → Type 0
Counts n r = r.0.opened ≡ n + one_if_got r.1

pub Counts-same : (m n : ℕ) (r : Fs × Opened) → m ≡ n → Counts m r → Counts n r
Counts-same m n r same h = omega (arith, same, h)

open_node-Counts : (i : ℕ) (node : Node) (fs : Fs) → Counts fs.opened (open_node i node fs)
unfolding open_node
open_node-Counts i absent fs = omega arith
open_node-Counts i (file m t b) fs = omega arith
open_node-Counts i (link t) fs = omega arith
open_node-Counts i (directory m p es) fs = omega arith

open_found-Counts : (o : Option ℕ) (fs : Fs) → Counts fs.opened (open_found o fs)
unfolding open_found
open_found-Counts none fs = omega arith
open_found-Counts (some i) fs = open_node-Counts i (fs.nodes i) fs

truncate-Counts : (i : ℕ) (node : Node) (fs : Fs) → Counts fs.opened (truncate i node fs)
unfolding truncate set_node
truncate-Counts i absent fs = omega arith
truncate-Counts i (file m t b) fs = omega arith
truncate-Counts i (link t) fs = omega arith
truncate-Counts i (directory m p es) fs = omega arith

create_in-Counts :
    (dir : ℕ) (name : Bytes) (perm : ℕ) (node : Node) (fs : Fs)
    → Counts fs.opened (create_in dir name perm node fs)
unfolding create_in create_entry add_node set_node
create_in-Counts dir name perm absent fs = omega arith
create_in-Counts dir name perm (file m t b) fs = omega arith
create_in-Counts dir name perm (link t) fs = omega arith
create_in-Counts dir name perm (directory m p es) fs = elim (Option-cases (find_entry name es)) [
  | inl f ↦ rw f (omega arith)
  | inr (i, f) ↦ rw f (truncate-Counts i (fs.nodes i) fs)
]

-- Other processes have their own descriptors.
abbrev pub KeepDescriptors : Kernel → Type 0
KeepDescriptors k = (fs : Fs) → (k.others fs).opened ≡ fs.opened

module _ (k : Kernel) (own : KeepDescriptors k) where
  before-opened : (fs : Fs) → (before k fs).opened ≡ fs.opened
  unfolding before
  before-opened fs = own (record fs { calls = suc fs.calls })

  pub mkdirat-opened :
      (dir : ℕ) (name : Bytes) (perm : ℕ) (fs : Fs)
      → (mkdirat k dir name perm fs).0.opened ≡ fs.opened
  unfolding mkdirat
  mkdirat-opened dir name perm fs =
      let now = before k fs in
      elim (Bool-cases (k.refuses now)) [
        | inl e ↦ rw e (before-opened fs)
        | inr e ↦ rw e (make_in-opened dir name perm (now.nodes dir) now ∙ before-opened fs)
      ]

  pub openat_dir-Counts :
      (dir : ℕ) (name : Bytes) (fs : Fs) → Counts fs.opened (openat_dir k dir name fs)
  unfolding openat_dir
  openat_dir-Counts dir name fs =
      let now = before k fs in
      let same = before-opened fs in
      elim (Bool-cases (k.refuses now)) [
        | inl e ↦ rw e (omega (arith, same))
        | inr e ↦ rw e (
            Counts-same now.opened fs.opened (open_found (step_into dir name (now.nodes dir)) now)
              same (open_found-Counts (step_into dir name (now.nodes dir)) now))
      ]

  pub openat_file-Counts :
      (dir : ℕ) (name : Bytes) (perm : ℕ) (fs : Fs)
      → Counts fs.opened (openat_file k dir name perm fs)
  unfolding openat_file
  openat_file-Counts dir name perm fs =
      let now = before k fs in
      let same = before-opened fs in
      elim (Bool-cases (k.refuses now)) [
        | inl e ↦ rw e (omega (arith, same))
        | inr e ↦ elim (Bool-cases (is_skipped name || is_up name || contains name b'/')) [
          | inl f ↦ rw (e, f) (omega (arith, same))
          | inr f ↦
              rw (e, f)
                (Counts-same now.opened fs.opened (create_in dir name perm (now.nodes dir) now) same
                  (create_in-Counts dir name perm (now.nodes dir) now))
        ]
      ]

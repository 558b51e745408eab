-- ===== src/Transfer/SafeRoot/Descriptors.antt =====
-- Which descriptors safeRoot leaves open.
pub mod Calls
use agmux.Base.{
  ℕ, suc, ◌+◌, ◌%◌, ◌≡◌, ◌∙◌, refl, Option, none, some, ◌||◌, List, [], ◌∷◌, Bytes, arith,
  Bool-cases, Option-cases, inl, inr, contains,
}
use agmux.Transfer.{split_path, clean_rel_path, is_skipped, is_up}
use agmux.Transfer.Kernel.{
  Node, absent, file, link, directory, Fs, Kernel, Errno, Opened, got, failed, find_entry, before,
  set_node, add_node, make_entry, make_in, mkdirat, step_into, open_node, open_found, openat_dir,
  truncate, create_entry, create_in, openat_file,
}
use agmux.Transfer.SafeRoot.{
  Failure, Dir, root_dir, sub_dir, inode, close_dir, blocks, enter, after_mkdir, create_mode,
  ensure_part, ensure_parts, ensure_rel, ensure_dir, DirResult, dir_opened, dir_failed, open_next,
  open_parts, open_rel, open_dir, dir_of, base_of, FileResult, file_opened, file_failed, wrap,
  open_in_parent, open_ensured, open_file_rel, open_file,
}
use agmux.Transfer.SafeRoot.Descriptors.Calls.{
  KeepDescriptors, one_if_got, Counts, Counts-same, mkdirat-opened, openat_dir-Counts,
  openat_file-Counts,
}

abbrev held : Dir → ℕ
held root_dir = 0
held (sub_dir i) = 1

close_dir-opened :
    (n : ℕ) (d : Dir) (fs : Fs) → fs.opened ≡ n + held d → (close_dir d fs).opened ≡ n
unfolding close_dir
close_dir-opened n root_dir fs h = omega (arith, h)
close_dir-opened n (sub_dir i) fs h = omega (arith, h)

abbrev pub one_if_file : FileResult → ℕ
one_if_file (file_opened i) = 1
one_if_file (file_failed f) = 0

module _ (k : Kernel) (own : KeepDescriptors k) where
  -- The rest of a loop closes what it holds.
  abbrev Releases {ℓ} : {A : Type ℓ} → (Dir → Fs → Fs × A) → Type 0
  Releases next = (n : ℕ) (d : Dir) (fs : Fs) → fs.opened ≡ n + held d → (next d fs).0.opened ≡ n

  enter-opened :
      (next : Dir → Fs → Fs × Option Failure) (n : ℕ) (d : Dir) (r : Fs × Opened)
      → Releases next
      → Counts (n + held d) r
      → (enter next d r).0.opened ≡ n
  unfolding enter
  enter-opened next n d (fs, failed e) goes h = close_dir-opened n d fs (omega (arith, h))
  enter-opened next n d (fs, got i) goes h =
      goes n (sub_dir i) (close_dir d fs) (close_dir-opened (n + 1) d fs (omega (arith, h)))

  after_mkdir-opened :
      (root : ℕ) (next : Dir → Fs → Fs × Option Failure) (n : ℕ) (d : Dir) (part : Bytes) (fs : Fs)
      (e : Option Errno)
      → Releases next
      → fs.opened ≡ n + held d
      → (after_mkdir k root next d part fs e).0.opened ≡ n
  unfolding after_mkdir
  after_mkdir-opened root next n d part fs (some e) goes h = close_dir-opened n d fs h
  after_mkdir-opened root next n d part fs none goes h =
      let r = openat_dir k (inode root d) part fs in
      enter-opened next n d r goes
        (Counts-same fs.opened (n + held d) r h (openat_dir-Counts k own (inode root d) part fs))

  ensure_parts-opened :
      (mode : ℕ) (root : ℕ) (parts : List Bytes) → Releases (ensure_parts k root mode parts)
  unfolding ensure_parts ensure_part
  ensure_parts-opened mode root [] n d fs h = close_dir-opened n d fs h
  ensure_parts-opened mode root (part ∷ parts) n d fs h =
      let goes = ensure_parts-opened mode root parts in
      let m = mkdirat k (inode root d) part (create_mode mode parts) fs in
      elim (Bool-cases (is_skipped part)) [
        | inl e ↦ rw e (goes n d fs h)
        | inr e ↦ rw e (
            after_mkdir-opened root (ensure_parts k root mode parts) n d part m.0 (blocks m.1) goes
              (mkdirat-opened k own (inode root d) part (create_mode mode parts) fs ∙ h))
      ]

  ensure_rel-opened :
      (root mode : ℕ) (fs : Fs) (o : Option Bytes)
      → (ensure_rel k root mode fs o).0.opened ≡ fs.opened
  unfolding ensure_rel
  ensure_rel-opened root mode fs none = refl
  ensure_rel-opened root mode fs (some []) = refl
  ensure_rel-opened root mode fs (some (c ∷ s)) =
      ensure_parts-opened mode root (split_path (c ∷ s)) fs.opened root_dir fs (omega arith)

  ensure_dir-opened :
      (root : ℕ) (rel_path : Bytes) (mode : ℕ) (fs : Fs)
      → (ensure_dir k root rel_path mode fs).0.opened ≡ fs.opened
  unfolding ensure_dir
  ensure_dir-opened root rel_path mode fs = ensure_rel-opened root mode fs (clean_rel_path rel_path)

  abbrev held_by : DirResult → ℕ
  held_by (dir_opened d) = held d
  held_by (dir_failed f) = 0

  abbrev Holds : (Dir → Fs → Fs × DirResult) → Type 0
  Holds next =
      (n : ℕ) (d : Dir) (fs : Fs)
      → fs.opened ≡ n + held d
      → (next d fs).0.opened ≡ n + held_by (next d fs).1

  open_next-opened :
      (next : Dir → Fs → Fs × DirResult) (n : ℕ) (d : Dir) (r : Fs × Opened)
      → Holds next
      → Counts (n + held d) r
      → (open_next next d r).0.opened ≡ n + held_by (open_next next d r).1
  unfolding open_next
  open_next-opened next n d (fs, failed e) goes h =
      omega (arith, close_dir-opened n d fs (omega (arith, h)))
  open_next-opened next n d (fs, got i) goes h =
      goes n (sub_dir i) (close_dir d fs) (close_dir-opened (n + 1) d fs (omega (arith, h)))

  open_parts-opened : (root : ℕ) (parts : List Bytes) → Holds (open_parts k root parts)
  unfolding open_parts
  open_parts-opened root [] n d fs h = h
  open_parts-opened root (part ∷ parts) n d fs h =
      let goes = open_parts-opened root parts in
      let r = openat_dir k (inode root d) part fs in
      elim (Bool-cases (is_skipped part)) [
        | inl e ↦ rw e (goes n d fs h)
        | inr e ↦ rw e (
            open_next-opened (open_parts k root parts) n d r goes (
              Counts-same fs.opened (n + held d) r h
                (openat_dir-Counts k own (inode root d) part fs)))
      ]

  open_rel-opened :
      (root : ℕ) (fs : Fs) (o : Option Bytes)
      → let r = open_rel k root fs o in r.0.opened ≡ fs.opened + held_by r.1
  unfolding open_rel
  open_rel-opened root fs none = omega arith
  open_rel-opened root fs (some []) = omega arith
  open_rel-opened root fs (some (c ∷ s)) =
      open_parts-opened root (split_path (c ∷ s)) fs.opened root_dir fs (omega arith)

  open_dir-opened :
      (root : ℕ) (rel_path : Bytes) (fs : Fs)
      → let r = open_dir k root rel_path fs in r.0.opened ≡ fs.opened + held_by r.1
  unfolding open_dir
  open_dir-opened root rel_path fs = open_rel-opened root fs (clean_rel_path rel_path)

  wrap-one : (o : Opened) → one_if_file (wrap o) ≡ one_if_got o
  unfolding wrap
  wrap-one (got i) = refl
  wrap-one (failed e) = refl

  open_in_parent-opened :
      (root : ℕ) (rel : Bytes) (perm n : ℕ) (r : Fs × DirResult)
      → r.0.opened ≡ n + held_by r.1
      → let o = open_in_parent k root rel perm r in o.0.opened ≡ n + one_if_file o.1
  unfolding open_in_parent
  open_in_parent-opened root rel perm n (fs, dir_failed f) h = h
  open_in_parent-opened root rel perm n (fs, dir_opened d) h =
      let r = openat_file k (inode root d) (base_of rel) (perm % 512) fs in
      let counted = openat_file-Counts k own (inode root d) (base_of rel) (perm % 512) fs in
      rw (wrap-one r.1) (close_dir-opened (n + one_if_got r.1) d r.0 (omega (arith, counted, h)))

  open_ensured-opened :
      (root : ℕ) (rel : Bytes) (perm n : ℕ) (r : Fs × Option Failure)
      → r.0.opened ≡ n
      → let o = open_ensured k root rel perm r in o.0.opened ≡ n + one_if_file o.1
  unfolding open_ensured
  open_ensured-opened root rel perm n (fs, some f) h = omega (arith, h)
  open_ensured-opened root rel perm n (fs, none) h =
      let r = open_dir k root (dir_of rel) fs in
      open_in_parent-opened root rel perm n r
        (omega (arith, open_dir-opened root (dir_of rel) fs, h))

  open_file_rel-opened :
      (root perm : ℕ) (fs : Fs) (o : Option Bytes)
      → let r = open_file_rel k root perm fs o in r.0.opened ≡ fs.opened + one_if_file r.1
  unfolding open_file_rel
  open_file_rel-opened root perm fs none = omega arith
  open_file_rel-opened root perm fs (some []) = omega arith
  open_file_rel-opened root perm fs (some (c ∷ s)) =
      open_ensured-opened root (c ∷ s) perm fs.opened (ensure_dir k root (dir_of (c ∷ s)) 493 fs)
        (ensure_dir-opened root (dir_of (c ∷ s)) 493 fs)

  -- Wherever a call fails, openFile leaves open no descriptor but that of the file that it returns, and
  -- ensureDir none at all.
  pub open_file-opened :
      (root : ℕ) (rel_path : Bytes) (perm : ℕ) (fs : Fs)
      → let r = open_file k root rel_path perm fs in
        (r.0.opened ≡ fs.opened + one_if_file r.1)
        × ((ensure_dir k root rel_path perm fs).0.opened ≡ fs.opened)
  unfolding open_file
  open_file-opened root rel_path perm fs = (
    open_file_rel-opened root perm fs (clean_rel_path rel_path),
    ensure_dir-opened root rel_path perm fs,
  )

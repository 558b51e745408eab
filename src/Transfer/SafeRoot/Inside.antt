-- ===== src/Transfer/SafeRoot/Inside.antt =====
-- What safeRoot can change, whatever other processes do inside the root between its calls.
use agmux.Base.{
  ℕ, ◌%◌, ◌≡◌, refl, Option, none, some, false, List, [], ◌∷◌, Bytes, All, Bool-cases, inl, inr,
}
use agmux.Transfer.{split_path, clean_rel_path, is_skipped, is_up}
use agmux.Transfer.Lexical.{clean_rel_path-IsBelow}
use agmux.Transfer.Lexical.Cleans.{IsBelow}
use agmux.Transfer.Kernel.{Fs, Kernel, Errno, Opened, got, failed, mkdirat, openat_dir, openat_file}
use agmux.Transfer.Kernel.Inside.{IsClosed, IsSafe, IsSafe-trans, AreConfined, IsSafe-mkdirat}
use agmux.Transfer.Kernel.Inside.Opens.{IsSafeOpen, IsSafeOpen-openat_dir, IsSafeOpen-openat_file}
use agmux.Transfer.SafeRoot.{
  Failure, Dir, root_dir, sub_dir, inode, close_dir, blocks, enter, after_mkdir, create_mode,
  ensure_part, ensure_parts, ensure_rel, ensure_dir, DirResult, dir_opened, dir_failed, open_next,
  open_parts, open_rel, open_dir, dir_of, base_of, FileResult, file_opened, wrap, open_in_parent,
  open_ensured, open_file_rel, open_file,
}

module _ (IsInside : ℕ → Type 0) (k : Kernel) (confined : AreConfined IsInside k) (root : ℕ)
    (anchored : IsInside root) where
  same_place : (fs : Fs) → IsClosed IsInside fs → IsSafe IsInside fs fs
  same_place fs closed = (closed, λ j out. refl)

  IsSafe-close_dir :
      (d : Dir) (fs : Fs) → IsClosed IsInside fs → IsSafe IsInside fs (close_dir d fs)
  unfolding close_dir
  IsSafe-close_dir root_dir fs closed = same_place fs closed
  IsSafe-close_dir (sub_dir i) fs closed = same_place fs closed

  -- What a rest of a loop keeps, from any directory inside.
  abbrev GoesOn {ℓ} : {A : Type ℓ} → (Dir → Fs → Fs × A) → Type 0
  GoesOn next =
      (d : Dir) (fs : Fs)
      → IsInside (inode root d)
      → IsClosed IsInside fs
      → IsSafe IsInside fs (next d fs).0

  IsSafe-enter :
      (next : Dir → Fs → Fs × Option Failure) (d : Dir) (fs : Fs) (r : Fs × Opened)
      → GoesOn next
      → IsSafeOpen IsInside fs r
      → IsSafe IsInside fs (enter next d r).0
  unfolding enter
  IsSafe-enter next d fs (fs', failed e) goes (safe, inside) =
      IsSafe-trans IsInside fs fs' (close_dir d fs') safe (IsSafe-close_dir d fs' safe.0)
  IsSafe-enter next d fs (fs', got i) goes (safe, inside) =
      let shut = IsSafe-close_dir d fs' safe.0 in
      let closing = IsSafe-trans IsInside fs fs' (close_dir d fs') safe shut in
      IsSafe-trans IsInside fs (close_dir d fs') (next (sub_dir i) (close_dir d fs')).0 closing
        (goes (sub_dir i) (close_dir d fs') (inside i refl) closing.0)

  IsSafe-after_mkdir :
      (next : Dir → Fs → Fs × Option Failure) (d : Dir) (part : Bytes) (fs : Fs) (e : Option Errno)
      → GoesOn next
      → is_up part ≡ false
      → IsInside (inode root d)
      → IsClosed IsInside fs
      → IsSafe IsInside fs (after_mkdir k root next d part fs e).0
  unfolding after_mkdir
  IsSafe-after_mkdir next d part fs (some e) goes below inside closed = IsSafe-close_dir d fs closed
  IsSafe-after_mkdir next d part fs none goes below inside closed =
      IsSafe-enter next d fs (openat_dir k (inode root d) part fs) goes
        (IsSafeOpen-openat_dir IsInside k confined fs (inode root d) part closed inside below)

  IsSafe-ensure_parts :
      (mode : ℕ) (parts : List Bytes) → All IsBelow parts → GoesOn (ensure_parts k root mode parts)
  unfolding ensure_parts ensure_part IsBelow
  IsSafe-ensure_parts mode [] below d fs inside closed = IsSafe-close_dir d fs closed
  IsSafe-ensure_parts mode (part ∷ parts) (p, below) d fs inside closed =
      let goes = IsSafe-ensure_parts mode parts below in
      elim (Bool-cases (is_skipped part)) [
        | inl e ↦ rw e (goes d fs inside closed)
        | inr e ↦
            (let m = mkdirat k (inode root d) part (create_mode mode parts) fs in
              let made =
                IsSafe-mkdirat IsInside k confined fs (inode root d) part (create_mode mode parts)
                  closed inside in
              rw e (
                IsSafe-trans IsInside fs m.0
                  (after_mkdir k root (ensure_parts k root mode parts) d part m.0 (blocks m.1)).0
                  made
                  (IsSafe-after_mkdir (ensure_parts k root mode parts) d part m.0 (blocks m.1) goes
                    p inside made.0)))
      ]

  IsSafe-ensure_rel :
      (mode : ℕ) (fs : Fs) (o : Option Bytes)
      → ((rel : Bytes) → o ≡ some rel → All IsBelow (split_path rel))
      → IsClosed IsInside fs
      → IsSafe IsInside fs (ensure_rel k root mode fs o).0
  unfolding ensure_rel
  IsSafe-ensure_rel mode fs none below closed = same_place fs closed
  IsSafe-ensure_rel mode fs (some []) below closed = same_place fs closed
  IsSafe-ensure_rel mode fs (some (c ∷ s)) below closed =
      IsSafe-ensure_parts mode (split_path (c ∷ s)) (below (c ∷ s) refl) root_dir fs anchored closed

  pub ensure_dir-IsInside :
      (rel_path : Bytes) (mode : ℕ) (fs : Fs)
      → IsClosed IsInside fs
      → IsSafe IsInside fs (ensure_dir k root rel_path mode fs).0
  unfolding ensure_dir
  ensure_dir-IsInside rel_path mode fs closed =
      IsSafe-ensure_rel mode fs (clean_rel_path rel_path) (clean_rel_path-IsBelow rel_path) closed

  -- openDir
  abbrev IsSafeDir : Fs → Fs × DirResult → Type 0
  IsSafeDir fs r =
      IsSafe IsInside fs r.0 × ((d : Dir) → r.1 ≡ dir_opened d → IsInside (inode root d))

  DirGoesOn : (Dir → Fs → Fs × DirResult) → Type 0
  DirGoesOn next =
      (d : Dir) (fs : Fs)
      → IsInside (inode root d)
      → IsClosed IsInside fs
      → IsSafeDir fs (next d fs)

  opens_at :
      (fs : Fs) (d : Dir)
      → IsInside (inode root d)
      → IsClosed IsInside fs
      → IsSafeDir fs (fs, dir_opened d)
  opens_at fs d inside closed =
      (same_place fs closed, λ d' h. let same : d ≡ d' = cc h in rw (← same) inside)

  IsSafeDir-open_next :
      (next : Dir → Fs → Fs × DirResult) (d : Dir) (fs : Fs) (r : Fs × Opened)
      → DirGoesOn next
      → IsSafeOpen IsInside fs r
      → IsSafeDir fs (open_next next d r)
  unfolding open_next DirGoesOn
  IsSafeDir-open_next next d fs (fs', failed e) goes (safe, inside) = (
    IsSafe-trans IsInside fs fs' (close_dir d fs') safe (IsSafe-close_dir d fs' safe.0),
    λ d' h. cc h,
  )
  IsSafeDir-open_next next d fs (fs', got i) goes (safe, inside) =
      let shut = IsSafe-close_dir d fs' safe.0 in
      let closing = IsSafe-trans IsInside fs fs' (close_dir d fs') safe shut in
      let (rest, there) = goes (sub_dir i) (close_dir d fs') (inside i refl) closing.0 in
      (
        IsSafe-trans IsInside fs (close_dir d fs') (next (sub_dir i) (close_dir d fs')).0 closing
            rest,
        there,
      )

  IsSafeDir-open_parts :
      (parts : List Bytes) → All IsBelow parts → DirGoesOn (open_parts k root parts)
  unfolding open_parts IsBelow DirGoesOn
  IsSafeDir-open_parts [] below d fs inside closed = opens_at fs d inside closed
  IsSafeDir-open_parts (part ∷ parts) (p, below) d fs inside closed =
      let goes = IsSafeDir-open_parts parts below in
      elim (Bool-cases (is_skipped part)) [
        | inl e ↦ rw e (goes d fs inside closed)
        | inr e ↦ rw e (
            IsSafeDir-open_next (open_parts k root parts) d fs (openat_dir k (inode root d) part fs)
              goes
              (IsSafeOpen-openat_dir IsInside k confined fs (inode root d) part closed inside p))
      ]

  IsSafeDir-open_rel :
      (fs : Fs) (o : Option Bytes)
      → ((rel : Bytes) → o ≡ some rel → All IsBelow (split_path rel))
      → IsClosed IsInside fs
      → IsSafeDir fs (open_rel k root fs o)
  unfolding open_rel DirGoesOn
  IsSafeDir-open_rel fs none below closed = (same_place fs closed, λ d h. cc h)
  IsSafeDir-open_rel fs (some []) below closed = opens_at fs root_dir anchored closed
  IsSafeDir-open_rel fs (some (c ∷ s)) below closed =
      IsSafeDir-open_parts (split_path (c ∷ s)) (below (c ∷ s) refl) root_dir fs anchored closed

  IsSafeDir-open_dir :
      (rel_path : Bytes) (fs : Fs)
      → IsClosed IsInside fs
      → IsSafeDir fs (open_dir k root rel_path fs)
  unfolding open_dir
  IsSafeDir-open_dir rel_path fs closed =
      IsSafeDir-open_rel fs (clean_rel_path rel_path) (clean_rel_path-IsBelow rel_path) closed

  -- openFile
  abbrev IsSafeFile : Fs → Fs × FileResult → Type 0
  IsSafeFile fs r = IsSafe IsInside fs r.0 × ((i : ℕ) → r.1 ≡ file_opened i → IsInside i)

  wrapped :
      (o : Opened)
      → ((i : ℕ) → o ≡ got i → IsInside i)
      → (i : ℕ) → wrap o ≡ file_opened i
      → IsInside i
  unfolding wrap
  wrapped (failed e) inside i h = cc h
  wrapped (got j) inside i h = inside i (cc h)

  IsSafeFile-open_in_parent :
      (rel : Bytes) (perm : ℕ) (fs : Fs) (r : Fs × DirResult)
      → IsSafeDir fs r
      → IsSafeFile fs (open_in_parent k root rel perm r)
  unfolding open_in_parent
  IsSafeFile-open_in_parent rel perm fs (fs', dir_failed f) (safe, inside) = (safe, λ i h. cc h)
  IsSafeFile-open_in_parent rel perm fs (fs', dir_opened d) (safe, inside) =
      let r = openat_file k (inode root d) (base_of rel) (perm % 512) fs' in
      let (made, there) =
        IsSafeOpen-openat_file IsInside k confined fs' (inode root d) (base_of rel) (perm % 512)
          safe.0 (inside d refl) in
      (
        IsSafe-trans IsInside fs fs' (close_dir d r.0) safe
            (IsSafe-trans IsInside fs' r.0 (close_dir d r.0) made (IsSafe-close_dir d r.0 made.0)),
        wrapped r.1 there,
      )

  IsSafeFile-open_ensured :
      (rel : Bytes) (perm : ℕ) (fs : Fs) (r : Fs × Option Failure)
      → IsSafe IsInside fs r.0
      → IsSafeFile fs (open_ensured k root rel perm r)
  unfolding open_ensured
  IsSafeFile-open_ensured rel perm fs (fs', some f) safe = (safe, λ i h. cc h)
  IsSafeFile-open_ensured rel perm fs (fs', none) safe =
      let r = open_dir k root (dir_of rel) fs' in
      let (found, inside) = IsSafeDir-open_dir (dir_of rel) fs' safe.0 in
      IsSafeFile-open_in_parent rel perm fs r (IsSafe-trans IsInside fs fs' r.0 safe found, inside)

  IsSafeFile-open_file_rel :
      (perm : ℕ) (fs : Fs) (o : Option Bytes)
      → IsClosed IsInside fs
      → IsSafeFile fs (open_file_rel k root perm fs o)
  unfolding open_file_rel
  IsSafeFile-open_file_rel perm fs none closed = (same_place fs closed, λ i h. cc h)
  IsSafeFile-open_file_rel perm fs (some []) closed = (same_place fs closed, λ i h. cc h)
  IsSafeFile-open_file_rel perm fs (some (c ∷ s)) closed =
      IsSafeFile-open_ensured (c ∷ s) perm fs (ensure_dir k root (dir_of (c ∷ s)) 493 fs)
        (ensure_dir-IsInside (dir_of (c ∷ s)) 493 fs closed)

  -- Whatever the path is, and whatever others do inside the root between the calls, openFile changes no
  -- node outside, leaves the inside closed, and a file that it returns is inside.
  pub open_file-IsInside :
      (rel_path : Bytes) (perm : ℕ) (fs : Fs)
      → IsClosed IsInside fs
      → let r = open_file k root rel_path perm fs in
        IsSafe IsInside fs r.0 × ((i : ℕ) → r.1 ≡ file_opened i → IsInside i)
  unfolding open_file
  open_file-IsInside rel_path perm fs closed =
      IsSafeFile-open_file_rel perm fs (clean_rel_path rel_path) closed

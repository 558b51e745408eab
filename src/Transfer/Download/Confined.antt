-- ===== src/Transfer/Download/Confined.antt =====
-- What a download can change, whatever the server answers and whatever others do inside the root.
pub mod Files
use agmux.Base.{
  ℕ, ◌+◌, ◌≡◌, ◌↔◌, ◌∙◌, sym, refl, ap, Option, none, some, Bool, true, false, not, List, [], ◌∷◌,
  if◌then◌else◌, Bytes, length, arith, Bool-cases, Option-cases, inl, inr,
}
use agmux.Transfer.{check_path_traversal}
use agmux.Transfer.Kernel.{Node, absent, file, link, directory, Fs, Kernel, before, set_node}
use agmux.Transfer.Kernel.Inside.{
  IsClosed, Keeps, IsSafe, IsSafe-trans, AreConfined, Leads, IsSafe-set_node, IsSafe-before,
}
use agmux.Transfer.SafeRoot.{
  Failure, FileResult, file_opened, file_failed, ensure_dir, open_file, close_dir, sub_dir,
}
use agmux.Transfer.SafeRoot.Inside.{ensure_dir-IsInside, open_file-IsInside}
use agmux.Transfer.Paths.{
  AbsPath, Stat, missing, stat_failed, found, Host, Unsafe, join, safe_local_download_path,
  check_directory, made, ensure_looked, ensure_safe_local_dir,
}
use agmux.Transfer.Download.{
  FileInfo, RemoteFile, Step, walk_error, visits, DownloadError, filled, with_mode, with_time,
  change_file, finish_file, keep_mode, closing, fill_file, download_file, unchanged, Rest,
  after_file, after_local, after_ensure, fetch, fetch_checked, is_dot, Target, walk_step,
  download_walk,
}
use agmux.Transfer.Download.Confined.Files.{IsSafe-fill_file}

module _ (IsInside : ℕ → Type 0) where
  -- No file outside comes to be, is changed or goes.
  abbrev pub KeepsFiles : Fs → Fs → Type 0
  KeepsFiles fs fs' =
      (j mode time : ℕ) (bytes : Bytes)
      → ¬ IsInside j
      → (fs'.nodes j ≡ file mode time bytes) ↔ (fs.nodes j ≡ file mode time bytes)

  abbrev pub IsCareful : Fs → Fs → Type 0
  IsCareful fs fs' = IsClosed IsInside fs' × KeepsFiles fs fs'

  pub IsCareful-safe : (fs fs' : Fs) → IsSafe IsInside fs fs' → IsCareful fs fs'
  IsCareful-safe fs fs' (closed, kept) =
      (closed, λ j m t b out. (λ h. sym (kept j out) ∙ h, λ h. kept j out ∙ h))

  pub IsCareful-trans : (a b c : Fs) → IsCareful a b → IsCareful b c → IsCareful a c
  IsCareful-trans a b c (_, first) (closed, second) = (
    closed,
    λ j m t x out. (
      λ h. (first j m t x out).0 ((second j m t x out).0 h),
      λ h. (second j m t x out).1 ((first j m t x out).1 h),
    ),
  )

  -- os.MkdirAll makes directories only, and its new entries lead to new nodes.
  abbrev pub MakesDirectories : Host → Type 0
  MakesDirectories h =
      (fs : Fs) (path : AbsPath) (mode : ℕ)
      → IsClosed IsInside fs
      → IsCareful fs (h.mkdir_all fs path mode).0

  stays_put : (fs : Fs) → IsClosed IsInside fs → IsCareful fs fs
  stays_put fs closed = (closed, λ j m t b out. (λ h. h, λ h. h))

  module _ (h : Host) (makes : MakesDirectories h) where
    made_fs : (path : AbsPath) (o : Fs × Bool) → (made h path o).0 ≡ o.0
    unfolding made
    made_fs path (fs, false) = refl
    made_fs path (fs, true) = refl

    IsCareful-ensure_looked :
        (path : AbsPath) (mode : ℕ) (fs : Fs) (s : Stat)
        → IsClosed IsInside fs
        → IsCareful fs (ensure_looked h path mode fs s).0
    unfolding ensure_looked
    IsCareful-ensure_looked path mode fs missing closed =
        rw (made_fs path (h.mkdir_all fs path mode)) (makes fs path mode closed)
    IsCareful-ensure_looked path mode fs stat_failed closed = stays_put fs closed
    IsCareful-ensure_looked path mode fs (found look) closed = stays_put fs closed

    pub IsCareful-ensure_safe_local_dir :
        (path : AbsPath) (mode : ℕ) (fs : Fs)
        → IsClosed IsInside fs
        → IsCareful fs (ensure_safe_local_dir h path mode fs).0
    unfolding ensure_safe_local_dir
    IsCareful-ensure_safe_local_dir path mode fs closed =
        IsCareful-ensure_looked path mode fs (h.lstat fs path) closed

  module _ (k : Kernel) (confined : AreConfined IsInside k) (h : Host) (makes : MakesDirectories h)
      (t : Target) (anchored : IsInside t.root) where
    -- What the rest of the walk keeps.
    abbrev GoesOn : Rest → Type 0
    GoesOn next = (fs : Fs) (total : ℕ) → IsClosed IsInside fs → IsCareful fs (next fs total).0

    pub IsSafe-download_file :
        (r : RemoteFile) (rel : Bytes) (time : ℕ) (fs : Fs)
        → IsClosed IsInside fs
        → IsSafe IsInside fs (download_file k t.root r rel time fs).0
    unfolding download_file
    IsSafe-download_file r rel time fs closed = elim (Bool-cases r.opens) [
      | inl e ↦ rw e (
          IsSafe-fill_file IsInside k confined r time fs (open_file k t.root rel 384 fs)
            (open_file-IsInside IsInside k confined t.root anchored rel 384 fs closed))
      | inr e ↦ rw e (closed, λ j out. refl)
    ]

    IsCareful-after_file :
        (next : Rest) (total : ℕ) (r : RemoteFile) (fs : Fs) (o : Fs × Option DownloadError)
        → GoesOn next
        → IsCareful fs o.0
        → IsCareful fs (after_file next total r o).0
    unfolding after_file
    IsCareful-after_file next total r fs (fs', some e) goes careful = careful
    IsCareful-after_file next total r fs (fs', none) goes careful =
        IsCareful-trans fs fs' (next fs' (total + length r.bytes)).0 careful
          (goes fs' (total + length r.bytes) careful.0)

    IsCareful-after_local :
        (next : Rest) (total : ℕ) (fs : Fs) (o : Fs × Option Unsafe)
        → GoesOn next
        → IsCareful fs o.0
        → IsCareful fs (after_local next total o).0
    unfolding after_local
    IsCareful-after_local next total fs (fs', some e) goes careful = careful
    IsCareful-after_local next total fs (fs', none) goes careful =
        IsCareful-trans fs fs' (next fs' total).0 careful (goes fs' total careful.0)

    IsCareful-after_ensure :
        (next : Rest) (target : AbsPath) (mode total : ℕ) (fs : Fs) (o : Fs × Option Failure)
        → GoesOn next
        → IsSafe IsInside fs o.0
        → IsCareful fs (after_ensure h next target mode total o).0
    unfolding after_ensure
    IsCareful-after_ensure next target mode total fs (fs', some f) goes safe =
        IsCareful-safe fs fs' safe
    IsCareful-after_ensure next target mode total fs (fs', none) goes safe =
        IsCareful-after_local next total fs (ensure_safe_local_dir h target mode fs') goes (
          IsCareful-trans fs fs' (ensure_safe_local_dir h target mode fs').0
            (IsCareful-safe fs fs' safe)
            (IsCareful-ensure_safe_local_dir h makes target mode fs' safe.0))

    IsCareful-fetch :
        (next : Rest) (rel : Bytes) (target : AbsPath) (e : FileInfo) (r : RemoteFile) (fs : Fs)
        (total : ℕ)
        → GoesOn next
        → IsClosed IsInside fs
        → IsCareful fs (fetch k h t.root next rel target e r fs total).0
    unfolding fetch
    IsCareful-fetch next rel target e r fs total goes closed = elim (Bool-cases e.is_dir) [
      | inl d ↦ rw d (
          IsCareful-after_ensure next target e.mode total fs (ensure_dir k t.root rel e.mode fs)
            goes (ensure_dir-IsInside IsInside k confined t.root anchored rel e.mode fs closed))
      | inr d ↦ elim (Bool-cases (unchanged e (h.stat fs target))) [
        | inl u ↦ rw (d, u) (goes fs total closed)
        | inr u ↦
            rw (d, u)
              (IsCareful-after_file next total r fs (download_file k t.root r rel e.mod_time fs)
                goes
                (IsCareful-safe fs (download_file k t.root r rel e.mod_time fs).0
                  (IsSafe-download_file r rel e.mod_time fs closed)))
      ]
    ]

    IsCareful-fetch_checked :
        (next : Rest) (rel : Bytes) (target : AbsPath) (e : FileInfo) (r : RemoteFile) (fs : Fs)
        (total : ℕ) (o : Option Unsafe)
        → GoesOn next
        → IsClosed IsInside fs
        → IsCareful fs (fetch_checked k h t.root next rel target e r fs total o).0
    unfolding fetch_checked
    IsCareful-fetch_checked next rel target e r fs total (some u) goes closed = stays_put fs closed
    IsCareful-fetch_checked next rel target e r fs total none goes closed =
        IsCareful-fetch next rel target e r fs total goes closed

    IsCareful-walk_step :
        (next : Rest) (step : Step) (fs : Fs) (total : ℕ)
        → GoesOn next
        → IsClosed IsInside fs
        → IsCareful fs (walk_step k h t next step fs total).0
    unfolding walk_step
    IsCareful-walk_step next walk_error fs total goes closed = stays_put fs closed
    IsCareful-walk_step next (visits none e r) fs total goes closed = stays_put fs closed
    IsCareful-walk_step next (visits (some rel) e r) fs total goes closed =
        elim (Bool-cases (check_path_traversal rel)) [
          | inr c ↦ rw c (stays_put fs closed)
          | inl c ↦ elim (Bool-cases (is_dot rel)) [
            | inl d ↦ rw (c, d) (goes fs total closed)
            | inr d ↦
                rw (c, d)
                  (IsCareful-fetch_checked next rel (join t.root_abs rel) e r fs total
                    (safe_local_download_path h fs t.root_abs t.root_resolved (join t.root_abs rel))
                    goes closed)
          ]
        ]

    -- Whatever steps and files the server sends, and whatever others do inside the root between the
    -- calls, a download that ends or fails has made, changed and removed no file outside the root.
    pub download_walk-IsCareful :
        (steps : List Step) (fs : Fs) (total : ℕ)
        → IsClosed IsInside fs
        → IsCareful fs (download_walk k h t steps fs total).0
    unfolding download_walk
    download_walk-IsCareful [] fs total closed = stays_put fs closed
    download_walk-IsCareful (step ∷ steps) fs total closed =
        IsCareful-walk_step (download_walk k h t steps) step fs total
          (download_walk-IsCareful steps) closed

-- ===== src/Transfer/Kernel/Inside/Opens.antt =====
-- What an openat can change, and that what it returns is inside.
use agmux.Base.{
  ℕ, ◌≡◌, refl, Option, none, some, false, ◌||◌, [], Bytes, arith, Bool-cases, Option-cases, inl,
  inr, contains,
}
use agmux.Transfer.{is_skipped, is_up}
use agmux.Transfer.Kernel.{
  Node, absent, file, link, directory, Fs, Kernel, Errno, Opened, got, failed, find_entry, before,
  step_into, open_node, open_found, openat_dir, truncate, create_entry, create_in, openat_file,
}
use agmux.Transfer.Kernel.Inside.{
  IsClosed, IsSafe, IsSafe-trans, AreConfined, Leads-file, IsSafe-set_node, IsSafe-add_node,
  IsSafe-before,
}

module _ (IsInside : ℕ → Type 0) where
  -- openat: what it returns is inside, too.
  abbrev pub IsSafeOpen : Fs → Fs × Opened → Type 0
  IsSafeOpen fs r = IsSafe IsInside fs r.0 × ((i : ℕ) → r.1 ≡ got i → IsInside i)

  refused_open : (fs now : Fs) (e : Errno) → IsSafe IsInside fs now → IsSafeOpen fs (now, failed e)
  refused_open fs now e safe = (safe, λ i h. cc h)

  IsSafeOpen-node :
      (fs : Fs) (i : ℕ) (node : Node)
      → IsClosed IsInside fs
      → IsInside i
      → IsSafeOpen fs (open_node i node fs)
  unfolding open_node
  IsSafeOpen-node fs i absent closed inside = refused_open fs fs _ (closed, λ j out. refl)
  IsSafeOpen-node fs i (file m t b) closed inside = refused_open fs fs _ (closed, λ j out. refl)
  IsSafeOpen-node fs i (link t) closed inside = refused_open fs fs _ (closed, λ j out. refl)
  IsSafeOpen-node fs i (directory m p es) closed inside =
      ((closed, λ j out. refl), λ j h. let same : i ≡ j = cc h in rw (← same) inside)

  IsSafeOpen-found :
      (fs : Fs) (o : Option ℕ)
      → IsClosed IsInside fs
      → ((i : ℕ) → o ≡ some i → IsInside i)
      → IsSafeOpen fs (open_found o fs)
  unfolding open_found
  IsSafeOpen-found fs none closed inside = refused_open fs fs _ (closed, λ j out. refl)
  IsSafeOpen-found fs (some i) closed inside =
      IsSafeOpen-node fs i (fs.nodes i) closed (inside i refl)

  -- A name that is not ".." leads inside.
  step-IsInside :
      (fs : Fs) (dir : ℕ) (name : Bytes) (node : Node) (i : ℕ)
      → IsClosed IsInside fs
      → IsInside dir
      → is_up name ≡ false
      → fs.nodes dir ≡ node
      → step_into dir name node ≡ some i
      → IsInside i
  unfolding step_into
  step-IsInside fs dir name absent i closed inside below at h = cc h
  step-IsInside fs dir name (file m t b) i closed inside below at h = cc h
  step-IsInside fs dir name (link t) i closed inside below at h = cc h
  step-IsInside fs dir name (directory m p es) i closed inside below at h =
      elim (Bool-cases (is_skipped name)) [
        | inl e ↦ let same : dir ≡ i = cc (rw e at h) in rw (← same) inside
        | inr e ↦ closed.1 dir m p es name i inside at (rw (e, below) at h)
      ]

  IsSafeOpen-truncate :
      (fs : Fs) (i : ℕ) (node : Node)
      → IsClosed IsInside fs
      → IsInside i
      → IsSafeOpen fs (truncate i node fs)
  unfolding truncate
  IsSafeOpen-truncate fs i absent closed inside = refused_open fs fs _ (closed, λ j out. refl)
  IsSafeOpen-truncate fs i (link t) closed inside = refused_open fs fs _ (closed, λ j out. refl)
  IsSafeOpen-truncate fs i (directory m p es) closed inside =
      refused_open fs fs _ (closed, λ j out. refl)
  IsSafeOpen-truncate fs i (file m t b) closed inside = (
    IsSafe-set_node IsInside fs i (file m t []) closed inside (Leads-file IsInside m t []),
    λ j h. let same : i ≡ j = cc h in rw (← same) inside,
  )

  IsSafeOpen-create_in :
      (fs : Fs) (dir : ℕ) (name : Bytes) (perm : ℕ) (node : Node)
      → IsClosed IsInside fs
      → IsInside dir
      → fs.nodes dir ≡ node
      → IsSafeOpen fs (create_in dir name perm node fs)
  unfolding create_in create_entry
  IsSafeOpen-create_in fs dir name perm absent closed inside at =
      refused_open fs fs _ (closed, λ j out. refl)
  IsSafeOpen-create_in fs dir name perm (file m t b) closed inside at =
      refused_open fs fs _ (closed, λ j out. refl)
  IsSafeOpen-create_in fs dir name perm (link t) closed inside at =
      refused_open fs fs _ (closed, λ j out. refl)
  IsSafeOpen-create_in fs dir name perm (directory m p es) closed inside at =
      elim (Option-cases (find_entry name es)) [
        | inl f ↦ rw f (
          IsSafe-add_node IsInside fs dir m p es name (file perm 0 []) closed inside at
              (Leads-file IsInside perm 0 []),
          λ j h. let same : fs.fresh ≡ j = cc h in rw (← same) (closed.0 fs.fresh (omega arith)),
        )
        | inr (i, f) ↦
            rw f (
              IsSafeOpen-truncate fs i (fs.nodes i) closed (closed.1 dir m p es name i inside at f))
      ]

  IsSafeOpen-after :
      (fs now : Fs) (r : Fs × Opened) → IsSafe IsInside fs now → IsSafeOpen now r → IsSafeOpen fs r
  IsSafeOpen-after fs now r calm (safe, inside) =
      (IsSafe-trans IsInside fs now r.0 calm safe, inside)

  module _ (k : Kernel) (confined : AreConfined IsInside k) where
    pub IsSafeOpen-openat_dir :
        (fs : Fs) (dir : ℕ) (name : Bytes)
        → IsClosed IsInside fs
        → IsInside dir
        → is_up name ≡ false
        → IsSafeOpen fs (openat_dir k dir name fs)
    unfolding openat_dir
    IsSafeOpen-openat_dir fs dir name closed inside below =
        let now = before k fs in
        let calm = IsSafe-before IsInside k confined fs closed in
        elim (Bool-cases (k.refuses now)) [
          | inl e ↦ rw e (refused_open fs now _ calm)
          | inr e ↦ rw e (
              IsSafeOpen-after fs now (open_found (step_into dir name (now.nodes dir)) now) calm (
                IsSafeOpen-found now (step_into dir name (now.nodes dir)) calm.0
                  (λ i. step-IsInside now dir name (now.nodes dir) i calm.0 inside below refl)))
        ]

    pub IsSafeOpen-openat_file :
        (fs : Fs) (dir : ℕ) (name : Bytes) (perm : ℕ)
        → IsClosed IsInside fs
        → IsInside dir
        → IsSafeOpen fs (openat_file k dir name perm fs)
    unfolding openat_file
    IsSafeOpen-openat_file fs dir name perm closed inside =
        let now = before k fs in
        let calm = IsSafe-before IsInside k confined fs closed in
        elim (Bool-cases (k.refuses now)) [
          | inl e ↦ rw e (refused_open fs now _ calm)
          | inr e ↦ elim (Bool-cases (is_skipped name || is_up name || contains name b'/')) [
            | inl f ↦ rw (e, f) (refused_open fs now _ calm)
            | inr f ↦
                rw (e, f)
                  (IsSafeOpen-after fs now (create_in dir name perm (now.nodes dir) now) calm
                    (IsSafeOpen-create_in now dir name perm (now.nodes dir) calm.0 inside refl))
          ]
        ]

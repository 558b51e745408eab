-- ===== src/Transfer/Kernel/Inside.antt =====
-- What a system call can change, if the directory that it names is inside.
pub mod Opens
use agmux.Base.{
  bytes_eq, ℕ, suc, ◌≤◌, ◌≡◌, ◌∙◌, refl, Option, none, some, false, ◌||◌, ◌==◌, List, [], ◌∷◌,
  Bytes, arith, Bool-cases, Option-cases, inl, inr, contains, ==_iff,
}
use agmux.Transfer.{is_skipped, is_up}
use agmux.Transfer.Kernel.{
  Node, absent, file, link, directory, Fs, Kernel, Errno, Opened, got, failed, find_entry, before,
  set_node, add_node, make_entry, make_in, mkdirat, step_into, open_node, open_found, openat_dir,
  truncate, create_entry, create_in, openat_file,
}

module _ (IsInside : ℕ → Type 0) where
  -- The numbers not yet used and what a directory inside has for entries are inside; its ".." need not be.
  abbrev pub IsClosed : Fs → Type 0
  IsClosed fs =
      ((i : ℕ) → fs.fresh ≤ i → IsInside i)
      × ((i mode parent : ℕ) (entries : List (Bytes × ℕ)) (name : Bytes) (j : ℕ)
          → IsInside i
          → fs.nodes i ≡ directory mode parent entries
          → find_entry name entries ≡ some j
          → IsInside j)

  abbrev pub Keeps : Fs → Fs → Type 0
  Keeps fs fs' = (j : ℕ) → ¬ IsInside j → fs'.nodes j ≡ fs.nodes j

  abbrev pub IsSafe : Fs → Fs → Type 0
  IsSafe fs fs' = IsClosed fs' × Keeps fs fs'

  pub IsSafe-trans : (a b c : Fs) → IsSafe a b → IsSafe b c → IsSafe a c
  IsSafe-trans a b c (_, first) (closed, second) = (closed, λ j out. second j out ∙ first j out)

  -- What others do, as far as it is confined to the inside.
  abbrev pub AreConfined : Kernel → Type 0
  AreConfined k = (fs : Fs) → IsClosed fs → IsSafe fs (k.others fs)

  -- A node inside is replaced by one whose entries are inside.
  abbrev pub Leads : Node → Type 0
  Leads node =
      (mode parent : ℕ) (entries : List (Bytes × ℕ)) (name : Bytes) (j : ℕ)
      → node ≡ directory mode parent entries
      → find_entry name entries ≡ some j
      → IsInside j

  pub IsSafe-set_node :
      (fs : Fs) (i : ℕ) (node : Node)
      → IsClosed fs
      → IsInside i
      → Leads node
      → IsSafe fs (set_node i node fs)
  unfolding set_node
  IsSafe-set_node fs i node (free, closed) inside leads = (
    (
      free,
      λ dir m p es name j there e f. elim (Bool-cases (i == dir)) [
        | inl same ↦ leads m p es name j (rw same at e) f
        | inr other ↦ closed dir m p es name j there (rw other at e) f
      ],
    ),
    λ j out. elim (Bool-cases (i == j)) [
      | inl same ↦ absurd (out (rw (← (==_iff i j).0 same) inside))
      | inr other ↦ rw other refl
    ],
  )

  pub Leads-file : (mode time : ℕ) (bytes : Bytes) → Leads (file mode time bytes)
  Leads-file mode time bytes m p es name j e f = cc e

  Leads-empty : (mode parent : ℕ) → Leads (directory mode parent [])
  unfolding find_entry
  Leads-empty mode parent m p es name j e f = let same : [] ≡ es = cc e in cc (rw (← same) at f)

  Leads-entry :
      (fs : Fs) (dir mode parent : ℕ) (entries : List (Bytes × ℕ)) (name : Bytes)
      → IsClosed fs
      → IsInside dir
      → fs.nodes dir ≡ directory mode parent entries
      → Leads (directory mode parent ((name, fs.fresh) ∷ entries))
  unfolding find_entry
  Leads-entry fs dir mode parent entries name (free, closed) inside at m p es other j e f =
      let same : (name, fs.fresh) ∷ entries ≡ es = cc e in
      elim (Bool-cases (bytes_eq name other)) [
        | inl here ↦
            (let found : fs.fresh ≡ j = cc (rw (← same, here) at f) in
              rw (← found) (free fs.fresh (omega arith)))
        | inr away ↦ closed dir mode parent entries other j inside at (rw (← same, away) at f)
      ]

  pub IsSafe-add_node :
      (fs : Fs) (dir mode parent : ℕ) (entries : List (Bytes × ℕ)) (name : Bytes) (node : Node)
      → IsClosed fs
      → IsInside dir
      → fs.nodes dir ≡ directory mode parent entries
      → Leads node
      → IsSafe fs (add_node dir mode parent entries name node fs)
  unfolding add_node
  IsSafe-add_node fs dir mode parent entries name node closed inside at leads =
      let made = set_node fs.fresh node fs in
      let bumped = record made { fresh = suc fs.fresh } in
      let (safe, kept) =
        IsSafe-set_node fs fs.fresh node closed (closed.0 fs.fresh (omega arith)) leads in
      let (free, more) = closed in
      IsSafe-trans fs made (add_node dir mode parent entries name node fs) (safe, kept)
        (IsSafe-set_node bumped dir (directory mode parent ((name, fs.fresh) ∷ entries))
          (λ i h. free i (omega (arith, h)), safe.1) inside
          (Leads-entry fs dir mode parent entries name closed inside at))

  -- mkdirat
  IsSafe-make_in :
      (fs : Fs) (dir : ℕ) (name : Bytes) (perm : ℕ) (node : Node)
      → IsClosed fs
      → IsInside dir
      → fs.nodes dir ≡ node
      → IsSafe fs (make_in dir name perm node fs).0
  unfolding make_in make_entry
  IsSafe-make_in fs dir name perm absent closed inside at = (closed, λ j out. refl)
  IsSafe-make_in fs dir name perm (file m t b) closed inside at = (closed, λ j out. refl)
  IsSafe-make_in fs dir name perm (link t) closed inside at = (closed, λ j out. refl)
  IsSafe-make_in fs dir name perm (directory m p es) closed inside at =
      elim (Bool-cases (is_skipped name || is_up name)) [
        | inl e ↦ rw e (closed, λ j out. refl)
        | inr e ↦ elim (Option-cases (find_entry name es)) [
          | inl f ↦
              rw (e, f)
                (IsSafe-add_node fs dir m p es name (directory perm dir []) closed inside at
                  (Leads-empty perm dir))
          | inr (i, f) ↦ rw (e, f) (closed, λ j out. refl)
        ]
      ]

  module _ (k : Kernel) (confined : AreConfined k) where
    pub IsSafe-before : (fs : Fs) → IsClosed fs → IsSafe fs (before k fs)
    unfolding before
    IsSafe-before fs closed = confined (record fs { calls = suc fs.calls }) closed

    pub IsSafe-mkdirat :
        (fs : Fs) (dir : ℕ) (name : Bytes) (perm : ℕ)
        → IsClosed fs
        → IsInside dir
        → IsSafe fs (mkdirat k dir name perm fs).0
    unfolding mkdirat
    IsSafe-mkdirat fs dir name perm closed inside =
        let now = before k fs in
        let calm = IsSafe-before fs closed in
        elim (Bool-cases (k.refuses now)) [
          | inl e ↦ rw e calm
          | inr e ↦ rw e (
              IsSafe-trans fs now (make_in dir name perm (now.nodes dir) now).0 calm
                (IsSafe-make_in now dir name perm (now.nodes dir) calm.0 inside refl))
        ]

-- ===== src/Transfer/Service/Careful.antt =====
-- What a whole download can change.
use agmux.Base.{ℕ, ◌≡◌, some}
use agmux.Transfer.Kernel.{Fs, Kernel}
use agmux.Transfer.Kernel.Inside.{IsClosed, AreConfined}
use agmux.Transfer.Paths.{AbsPath, Host}
use agmux.Transfer.Download.Confined.{IsCareful, MakesDirectories}
use agmux.Transfer.Service.{Roots}

module _ (IsInside : ℕ → Type 0) where
  -- Opening a directory changes no file, and the one that is opened for a download is inside.
  pub record OpensInside (o : Roots) : Type 0 where
    pub opens :
        (fs : Fs) (path : AbsPath)
        → IsClosed IsInside fs
        → IsCareful IsInside fs (o.open_root fs path).0
          × ((root : ℕ) → (o.open_root fs path).1 ≡ some root → IsInside root)
    pub shuts : (fs : Fs) → IsClosed IsInside fs → IsCareful IsInside fs (o.close_root fs)

  module _ (k : Kernel) (confined : AreConfined IsInside k) (h : Host)
      (makes : MakesDirectories IsInside h) (o : Roots) (inside : OpensInside o) where
    same_files : (fs : Fs) → IsClosed IsInside fs → IsCareful IsInside fs fs
    same_files fs closed = (closed, λ j m t b out. (λ e. e, λ e. e))

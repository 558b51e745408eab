-- ===== src/Transfer/Download/Confined/Files.antt =====
-- What writing one file can change.
use agmux.Base.{ℕ, ◌≡◌, refl, Option, none, some, Bytes, arith, Bool-cases, inl, inr}
use agmux.Transfer.Kernel.{Node, absent, file, link, directory, Fs, Kernel, before, set_node}
use agmux.Transfer.Kernel.Inside.{
  IsClosed, IsSafe, IsSafe-trans, AreConfined, Leads, IsSafe-set_node, IsSafe-before,
}
use agmux.Transfer.SafeRoot.{FileResult, file_opened, file_failed, close_dir}
use agmux.Transfer.Download.{
  RemoteFile, filled, with_mode, with_time, change_file, finish_file, keep_mode, closing, fill_file,
}

module _ (IsInside : ℕ → Type 0) (k : Kernel) (confined : AreConfined IsInside k) where
  IsSafe-change_file :
      (change : Node → Node) (i : ℕ) (fs : Fs)
      → ((node : Node) → Leads IsInside node → Leads IsInside (change node))
      → IsClosed IsInside fs
      → IsInside i
      → IsSafe IsInside fs (change_file k change i fs)
  unfolding change_file
  IsSafe-change_file change i fs leads closed inside =
      let now = before k fs in
      let calm = IsSafe-before IsInside k confined fs closed in
      IsSafe-trans IsInside fs now (set_node i (change (now.nodes i)) now) calm (
        IsSafe-set_node IsInside now i (change (now.nodes i)) calm.0 inside
          (leads (now.nodes i) (λ m p es name j. calm.0.1 i m p es name j inside)))

  Leads-filled :
      (bytes : Bytes) (node : Node) → Leads IsInside node → Leads IsInside (filled bytes node)
  unfolding filled
  Leads-filled bytes absent leads m p es name j e f = cc e
  Leads-filled bytes (link t) leads m p es name j e f = cc e
  Leads-filled bytes (file mode time old) leads m p es name j e f = cc e
  Leads-filled bytes (directory mode up entries) leads m p es name j e f = leads m p es name j e f

  Leads-with_mode :
      (mode : ℕ) (node : Node) → Leads IsInside node → Leads IsInside (with_mode mode node)
  unfolding with_mode
  Leads-with_mode mode absent leads m p es name j e f = cc e
  Leads-with_mode mode (link t) leads m p es name j e f = cc e
  Leads-with_mode mode (file old time bytes) leads m p es name j e f = cc e
  Leads-with_mode mode (directory old up entries) leads m p es name j e f =
      leads old up es name j (ground (arith, e)) f

  Leads-with_time :
      (time : ℕ) (node : Node) → Leads IsInside node → Leads IsInside (with_time time node)
  unfolding with_time
  Leads-with_time time absent leads m p es name j e f = cc e
  Leads-with_time time (link t) leads m p es name j e f = cc e
  Leads-with_time time (file mode old bytes) leads m p es name j e f = cc e
  Leads-with_time time (directory mode up entries) leads m p es name j e f = leads m p es name j e f

  IsSafe-finish_file :
      (i time : ℕ) (fs : Fs)
      → IsClosed IsInside fs
      → IsInside i
      → IsSafe IsInside fs (finish_file k i time fs).0
  unfolding finish_file
  IsSafe-finish_file i time fs closed inside =
      let now = before k fs in
      let calm = IsSafe-before IsInside k confined fs closed in
      elim (Bool-cases (k.refuses now)) [
        | inl e ↦ rw e calm
        | inr e ↦ rw e (
            IsSafe-trans IsInside fs now (change_file k (with_time time) i now) calm
              (IsSafe-change_file (with_time time) i now (Leads-with_time time) calm.0 inside))
      ]

  IsSafe-keep_mode :
      (i time : ℕ) (mode : Option ℕ) (fs : Fs)
      → IsClosed IsInside fs
      → IsInside i
      → IsSafe IsInside fs (keep_mode k i time mode fs).0
  unfolding keep_mode
  IsSafe-keep_mode i time none fs closed inside = IsSafe-finish_file i time fs closed inside
  IsSafe-keep_mode i time (some mode) fs closed inside =
      let now = before k fs in
      let calm = IsSafe-before IsInside k confined fs closed in
      let moded = change_file k (with_mode mode) i now in
      let changed =
        IsSafe-trans IsInside fs now moded calm
          (IsSafe-change_file (with_mode mode) i now (Leads-with_mode mode) calm.0 inside) in
      elim (Bool-cases (k.refuses now)) [
        | inl e ↦ rw e calm
        | inr e ↦ rw e (
            IsSafe-trans IsInside fs moded (finish_file k i time moded).0 changed
              (IsSafe-finish_file i time moded changed.0 inside))
      ]

  pub IsSafe-fill_file :
      (r : RemoteFile) (time : ℕ) (fs : Fs) (o : Fs × FileResult)
      → IsSafe IsInside fs o.0 × ((i : ℕ) → o.1 ≡ file_opened i → IsInside i)
      → IsSafe IsInside fs (fill_file k r time o).0
  unfolding fill_file closing close_dir
  IsSafe-fill_file r time fs (fs', file_failed f) (safe, inside) = safe
  IsSafe-fill_file r time fs (fs', file_opened i) (safe, inside) =
      let copied = change_file k (filled r.bytes) i fs' in
      let copying =
        IsSafe-trans IsInside fs fs' copied safe (
          IsSafe-change_file (filled r.bytes) i fs' (Leads-filled r.bytes) safe.0
            (inside i refl)) in
      elim (Bool-cases r.ends_well) [
        | inl e ↦ rw e (
            IsSafe-trans IsInside fs copied (keep_mode k i time r.mode_after copied).0 copying
              (IsSafe-keep_mode i time r.mode_after copied copying.0 (inside i refl)))
        | inr e ↦ rw e copying
      ]

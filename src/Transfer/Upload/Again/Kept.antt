-- ===== src/Transfer/Upload/Again/Kept.antt =====
-- What an upload keeps of the files on the server, and what it leaves of one that it sends.
use agmux.Base.{
  ℕ, ◌+◌, ◌≡◌, ◌≢◌, ◌⊎◌, inl, inr, refl, ◌&&◌, Option, none, some, Bool, true, false, List, [], ◌∷◌,
  Bytes, length, arith, Bool-cases, All,
}
use agmux.Transfer.SafeRoot.{dir_of}
use agmux.Transfer.Paths.{Look, Stat, found}
use agmux.Transfer.Download.{FileInfo, unchanged}
use agmux.Transfer.Upload.{
  Sftp, LocalFile, Visit, walk_error, no_rel, visit, UploadError, join_remote, attempt, send_file,
  upload_file, UploadRest, after_times, after_upload, after_mkdir_all, send_entry, upload_step,
  upload_walk,
}

-- The path is a file with the size and time.
abbrev pub HasFile : Stat → ℕ → ℕ → Type 0
HasFile at size time =
    (l : Look) × (at ≡ found l) × (l.is_dir ≡ false) × (l.size ≡ size) × (l.mod_time ≡ time)

-- What a file system does in calls that succeed or fail: the file at a path changes only in the calls
-- that name it, a copy leaves a file of its size, and Chmod and Chtimes set what they say.
pub record KeepsFiles {R : Type 0} (s : Sftp R) : Type 0 where
  pub mkdir_keeps :
      (r : R) (p q : Bytes) (n t : ℕ)
      → HasFile (s.stat r q) n t
      → HasFile (s.stat (s.mkdir_all r p).0 q) n t
  pub create_keeps :
      (r : R) (p q : Bytes) (n t : ℕ)
      → p ≢ q
      → HasFile (s.stat r q) n t
      → HasFile (s.stat (s.create r p).0 q) n t
  pub copy_keeps :
      (r : R) (p q b : Bytes) (n t : ℕ)
      → p ≢ q
      → HasFile (s.stat r q) n t
      → HasFile (s.stat (s.copy_to r p b).0 q) n t
  pub chmod_keeps :
      (r : R) (p q : Bytes) (m n t : ℕ)
      → HasFile (s.stat r q) n t
      → HasFile (s.stat (s.chmod r p m).0 q) n t
  pub chtimes_keeps :
      (r : R) (p q : Bytes) (u n t : ℕ)
      → p ≢ q
      → HasFile (s.stat r q) n t
      → HasFile (s.stat (s.chtimes r p u).0 q) n t
  pub copies :
      (r : R) (p b : Bytes)
      → (s.copy_to r p b).1 ≡ true
      → (t : ℕ) × HasFile (s.stat (s.copy_to r p b).0 p) (length b) t
  pub sets_time :
      (r : R) (p : Bytes) (u n t : ℕ)
      → (s.chtimes r p u).1 ≡ true
      → HasFile (s.stat r p) n t
      → HasFile (s.stat (s.chtimes r p u).0 p) n u

pub unchanged-HasFile :
    (e : FileInfo) (at : Stat) → HasFile at e.size e.mod_time → unchanged e at ≡ true
unfolding unchanged
unchanged-HasFile e at (l, same, file, size, time) = rw (same, size, time) (ground arith)

-- A visit of a directory, or of a file whose target is not that path.
abbrev pub IsApart : Bytes → Bytes → Visit → Type 0
IsApart remote q walk_error = Unit
IsApart remote q no_rel = Unit
IsApart remote q (visit rel e l) = (e.is_dir ≡ true) ⊎ (join_remote remote rel ≢ q)

-- The targets of the files differ.
abbrev pub AreDistinct : Bytes → List Visit → Type 0
AreDistinct remote [] = Unit
AreDistinct remote (walk_error ∷ visits) = AreDistinct remote visits
AreDistinct remote (no_rel ∷ visits) = AreDistinct remote visits
AreDistinct remote (visit rel e l ∷ visits) =
    ((e.is_dir ≡ true) ⊎ All (IsApart remote (join_remote remote rel)) visits)
    × AreDistinct remote visits

module _ {R : Type 0} (s : Sftp R) (laws : KeepsFiles s) (remote : Bytes) where
  module _ {ℓ} (P : R → Type ℓ) where
    attempt_keeps :
        (x : R × Bool) (e : UploadError) (next : R → R × Option UploadError)
        → P x.0
        → ((r : R) → P r → P (next r).0)
        → P (attempt s x e next).0
    unfolding attempt
    attempt_keeps (r, false) e next p goes = p
    attempt_keeps (r, true) e next p goes = goes r p

    attempt_gives :
        (x : R × Bool) (e : UploadError) (next : R → R × Option UploadError)
        → (x.1 ≡ true → (next x.0).1 ≡ none → P (next x.0).0)
        → (attempt s x e next).1 ≡ none
        → P (attempt s x e next).0
    unfolding attempt
    attempt_gives (r, false) e next goes h = cc h
    attempt_gives (r, true) e next goes h = goes refl h

  send_file_keeps :
      (p q : Bytes) (l : LocalFile) (mode : Option ℕ) (n t : ℕ) (r : R)
      → p ≢ q
      → HasFile (s.stat r q) n t
      → HasFile (s.stat (send_file s p l mode r).0 q) n t
  unfolding send_file
  send_file_keeps p q l none n t r apart has = has
  send_file_keeps p q l (some mode) n t r apart has =
      let P : R → Type 0 = λ x. HasFile (s.stat x q) n t in
      attempt_keeps P (s.mkdir_all r (dir_of p)) _ _ (laws.mkdir_keeps r (dir_of p) q n t has)
        (λ a ha. attempt_keeps P (s.create a p) _ _ (laws.create_keeps a p q n t apart ha) (λ b hb.
          attempt_keeps P ((s.copy_to b p l.content).0, (s.copy_to b p l.content).1 && l.ends_well)
            _ _ (laws.copy_keeps b p q l.content n t apart hb)
            (λ c hc.
              attempt_keeps P (s.chmod c p mode) _ _ (laws.chmod_keeps c p q mode n t hc)
                (λ d hd. hd))))

  upload_file_keeps :
      (p q : Bytes) (l : LocalFile) (n t : ℕ) (r : R)
      → p ≢ q
      → HasFile (s.stat r q) n t
      → HasFile (s.stat (upload_file s p l r).0 q) n t
  unfolding upload_file
  upload_file_keeps p q l n t r apart has = elim (Bool-cases l.opens) [
    | inl e ↦ rw e (send_file_keeps p q l l.file_mode n t r apart has)
    | inr e ↦ rw e has
  ]

  -- What the rest of the walk keeps.
  Keeps : Bytes → UploadRest s → Type 0
  Keeps q next =
      (r : R) (total n t : ℕ) → HasFile (s.stat r q) n t → HasFile (s.stat (next r total).0 q) n t

  after_times-Keeps :
      (q : Bytes) (next : UploadRest s) (total n t : ℕ) (x : R × Bool)
      → Keeps q next
      → HasFile (s.stat x.0 q) n t
      → HasFile (s.stat (after_times s next total x).0 q) n t
  unfolding after_times Keeps
  after_times-Keeps q next total n t (r, false) goes has = has
  after_times-Keeps q next total n t (r, true) goes has = goes r total n t has

  after_upload-Keeps :
      (p q : Bytes) (next : UploadRest s) (e : FileInfo) (total size n t : ℕ)
      (x : R × Option UploadError)
      → p ≢ q
      → Keeps q next
      → HasFile (s.stat x.0 q) n t
      → HasFile (s.stat (after_upload s next p e total size x).0 q) n t
  unfolding after_upload
  after_upload-Keeps p q next e total size n t (r, some f) apart goes has = has
  after_upload-Keeps p q next e total size n t (r, none) apart goes has =
      after_times-Keeps q next (total + size) n t (s.chtimes r p e.mod_time) goes
        (laws.chtimes_keeps r p q e.mod_time n t apart has)

  after_mkdir-Keeps :
      (q : Bytes) (next : UploadRest s) (total n t : ℕ) (x : R × Bool)
      → Keeps q next
      → HasFile (s.stat x.0 q) n t
      → HasFile (s.stat (after_mkdir_all s next total x).0 q) n t
  unfolding after_mkdir_all Keeps
  after_mkdir-Keeps q next total n t (r, false) goes has = has
  after_mkdir-Keeps q next total n t (r, true) goes has = goes r total n t has

  send_entry-Keeps :
      (p q : Bytes) (next : UploadRest s) (e : FileInfo) (l : LocalFile)
      → (e.is_dir ≡ true) ⊎ (p ≢ q)
      → Keeps q next
      → Keeps q (send_entry s next p e l)
  unfolding send_entry Keeps
  send_entry-Keeps p q next e l apart goes r total n t has = elim (Bool-cases e.is_dir) [
    | inl d ↦ rw d (
        after_mkdir-Keeps q next total n t (s.mkdir_all r p) (unfold Keeps in goes)
          (laws.mkdir_keeps r p q n t has))
    | inr d ↦ elim (Bool-cases (unchanged e (s.stat r p))) [
      | inl u ↦ rw (d, u) (goes r total n t has)
      | inr u ↦ elim apart [
        | inl dir ↦ absurd (cc (dir, d))
        | inr other ↦
            rw (d, u)
              (after_upload-Keeps p q next e total (length l.content) n t (upload_file s p l r)
                other (unfold Keeps in goes) (upload_file_keeps p q l n t r other has))
      ]
    ]
  ]

  upload_walk-Keeps :
      (q : Bytes) (visits : List Visit)
      → All (IsApart remote q) visits
      → Keeps q (upload_walk s remote visits)
  unfolding upload_walk upload_step Keeps
  upload_walk-Keeps q [] apart r total n t has = has
  upload_walk-Keeps q (walk_error ∷ visits) apart r total n t has = has
  upload_walk-Keeps q (no_rel ∷ visits) apart r total n t has = has
  upload_walk-Keeps q (visit rel e l ∷ visits) (a, apart) r total n t has =
      send_entry-Keeps (join_remote remote rel) q (upload_walk s remote visits) e l a
        (upload_walk-Keeps q visits apart) r total n t has

  -- A file that was sent stands at its target with its size.
  send_file_works :
      (p : Bytes) (l : LocalFile) (mode : Option ℕ) (r : R)
      → (send_file s p l mode r).1 ≡ none
      → (t : ℕ) × HasFile (s.stat (send_file s p l mode r).0 p) (length l.content) t
  unfolding send_file
  send_file_works p l none r h = cc h
  send_file_works p l (some mode) r h =
      let P : R → Type 0 = λ x. (t : ℕ) × HasFile (s.stat x p) (length l.content) t in
      attempt_gives P (s.mkdir_all r (dir_of p)) _ _
        (λ made.
          let a = (s.mkdir_all r (dir_of p)).0 in
          attempt_gives P (s.create a p) _ _ (λ created.
            let b = (s.create a p).0 in
            attempt_gives P
              ((s.copy_to b p l.content).0, (s.copy_to b p l.content).1 && l.ends_well) _ _
              (λ copied.
                let c = (s.copy_to b p l.content).0 in
                attempt_gives P (s.chmod c p mode) _ _ (λ kept done.
                  let (t, has) = laws.copies b p l.content (ground (arith, copied)) in
                  (t, laws.chmod_keeps c p p mode (length l.content) t has)))))
        h

  pub upload_file_works :
      (p : Bytes) (l : LocalFile) (r : R)
      → (upload_file s p l r).1 ≡ none
      → (t : ℕ) × HasFile (s.stat (upload_file s p l r).0 p) (length l.content) t
  unfolding upload_file
  upload_file_works p l r h = elim (Bool-cases l.opens) [
    | inl e ↦ rw e (send_file_works p l l.file_mode r (rw e at h))
    | inr e ↦ absurd (cc (rw e at h))
  ]

  pub keeps_file :
      (q : Bytes) (visits : List Visit)
      → All (IsApart remote q) visits
      → (r : R) (total n t : ℕ) → HasFile (s.stat r q) n t
      → HasFile (s.stat (upload_walk s remote visits r total).0 q) n t
  unfolding Keeps
  keeps_file q visits apart = upload_walk-Keeps q visits apart

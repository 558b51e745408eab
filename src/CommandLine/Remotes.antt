-- ===== src/CommandLine/Remotes.antt =====
-- What splitRemoteSpec reads.
use agmux.Base.{
  ℕ, zero, suc, ap, sym, ◌∙◌, ◌≡◌, ◌≢◌, ◌⊎◌, ◌↔◌, inl, inr, refl, Option, none, some, false, ◌==◌,
  ◌&&◌, [], ◌∷◌, ◌++◌, Bytes, contains, length, arith, Option-cases,
}
use agmux.CommandLine.{
  split_first, Remote, remote_parts, starts_with_backslash, path_or_home, remote_of,
  split_remote_spec,
}

pub split_first-append :
    (c : ℕ) (a b : Bytes) → contains a c ≡ false → split_first c (a ++ c ∷ b) ≡ some (a, b)
unfolding split_first contains
split_first-append c [] b h = ground arith
split_first-append c (x ∷ a) b h = ground (arith, split_first-append c a b)

pub split_first_sound :
    (c : ℕ) (s a b : Bytes)
    → split_first c s ≡ some (a, b)
    → (s ≡ a ++ c ∷ b) × (contains a c ≡ false)
unfolding split_first contains
split_first_sound c [] a b h = cc
split_first_sound c (x ∷ s) a b h = elim (Option-cases (split_first c s)) [
  | inl e ↦ ground (arith, rw e at h)
  | inr ((a', b'), e) ↦ let (es, ea) = split_first_sound c s a' b' e in ground (arith, rw e at h)
]

-- A session name that a spec can hold, and a spec of it that is no Windows path.
abbrev pub IsPrefix : Bytes → Bytes → Type 0
IsPrefix name path =
    (name ≢ [])
    × (contains name b':' ≡ false)
    × (contains name b'/' ≡ false)
    × (contains name b'\\' ≡ false)
    × ((length name ≢ 1) ⊎ (starts_with_backslash path ≡ false))

no_drive :
    (n : ℕ) (path : Bytes)
    → (n == 0 && starts_with_backslash path) ≡ false
    → (suc n ≢ 1) ⊎ (starts_with_backslash path ≡ false)
no_drive zero path h = inr h
no_drive (suc n) path h = inl (omega arith)

remote_parts_sound :
    (name path : Bytes) (r : Remote)
    → contains name b':' ≡ false
    → remote_parts name path ≡ some r
    → IsPrefix name path × (r ≡ record { session = name; path = path_or_home path })
unfolding remote_parts
remote_parts_sound [] path r h e = cc
remote_parts_sound (c ∷ name) path r h e =
    let slash : contains (c ∷ name) b'/' ≡ false = ground arith in
    let backslash : contains (c ∷ name) b'\\' ≡ false = ground arith in
    let drive : (length name == 0 && starts_with_backslash path) ≡ false = ground arith in
    let same : r ≡ record { session = c ∷ name; path = path_or_home path } = ground arith in
    ((λ q. cc q, h, slash, backslash, no_drive (length name) path drive), same)

remote_parts_complete :
    (name path : Bytes)
    → IsPrefix name path
    → remote_parts name path ≡ some (record { session = name; path = path_or_home path })
unfolding remote_parts
remote_parts_complete [] path (full, colon, slash, backslash, h) = absurd (full refl)
remote_parts_complete (c ∷ name) path (full, colon, slash, backslash, inl long) = ground arith
remote_parts_complete (c ∷ name) path (full, colon, slash, backslash, inr plain) = ground arith

split_sound :
    (s : Bytes) (r : Remote) (o : Option (Bytes × Bytes))
    → split_first b':' s ≡ o
    → remote_of o ≡ some r
    → (path : Bytes) × (s ≡ r.session ++ b':' ∷ path)
      × IsPrefix r.session path
      × (r.path ≡ path_or_home path)
unfolding remote_of
split_sound s r none e h = cc
split_sound s r (some (name, path)) e h =
    let (parts, colon) = split_first_sound b':' s name path e in
    let (ok, same) = remote_parts_sound name path r colon h in
    (path, rw same parts, rw same ok, rw same refl)

-- A word of scp is a remote spec exactly if it is a session name, a colon and a path, where the name
-- is not empty, has no `:`, `/` or `\\`, and is no drive letter before a backslash; the name and the
-- path are read back, an empty path as the home directory.
pub split_remote_spec-IsPrefix :
    (s : Bytes) (r : Remote)
    → (split_remote_spec s ≡ some r) ↔ (
        (path : Bytes) × (s ≡ r.session ++ b':' ∷ path)
        × IsPrefix r.session path
        × (r.path ≡ path_or_home path))
unfolding split_remote_spec remote_of
split_remote_spec-IsPrefix s r = (
  split_sound s r (split_first b':' s) refl,
  λ (path, e, ok, p).
      let (full, colon, slash, backslash, drive) = ok in
      rw (e, split_first-append b':' r.session path colon)
        (remote_parts_complete r.session path ok
          ∙ ap (λ (q : Bytes). some (record { session = r.session; path = q })) (sym p)),
)

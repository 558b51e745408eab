-- ===== src/Transfer/Paths/Targets.antt =====
-- Which local paths a download may write to.
use agmux.Base.{◌≡◌, refl, none, false, [], Bool-cases, inl, inr, ◌⊎◌}
use agmux.Transfer.{backwards}
use agmux.Transfer.Kernel.{Fs}
use agmux.Transfer.Paths.{
  AbsPath, Look, Stat, missing, stat_failed, found, Host, Parent, parent, no_parent, endless,
  inspect, check_parent, path_escapes_root, resolve_existing_parent, without_last,
  safe_local_download_path,
}
use agmux.Transfer.Paths.Under.{IsUnder, stays-IsUnder}
use agmux.Transfer.Paths.Parents.{Nearest, resolve_existing_parent-Nearest}

-- What stands at a path is no link.
abbrev pub IsPlain : Stat → Type 0
IsPlain s = (s ≡ missing) ⊎ ((look : Look) × (s ≡ found look) × (look.is_symlink ≡ false))

inspect-IsPlain : (s : Stat) → inspect s ≡ none → IsPlain s
unfolding inspect
inspect-IsPlain missing h = inl refl
inspect-IsPlain stat_failed h = cc h
inspect-IsPlain (found look) h = elim (Bool-cases look.is_symlink) [
  | inl e ↦ absurd (cc (rw e at h))
  | inr e ↦ inr (look, refl, e)
]

check_parent_sound :
    (root_resolved : AbsPath) (s : Stat) (p : Parent)
    → check_parent root_resolved s p ≡ none
    → (there : AbsPath) × (p ≡ parent there)
      × (path_escapes_root root_resolved there ≡ false)
      × IsPlain s
unfolding check_parent
check_parent_sound root_resolved s no_parent h = cc h
check_parent_sound root_resolved s endless h = cc h
check_parent_sound root_resolved s (parent there) h =
    elim (Bool-cases (path_escapes_root root_resolved there)) [
      | inl e ↦ absurd (cc (rw e at h))
      | inr e ↦ (there, refl, e, inspect-IsPlain s (rw e at h))
    ]

-- A target is accepted only if it stays under the root by its names, the nearest directory above it that
-- exists stays under the resolved root once its links are followed, and no link stands at it.
pub safe_local_download_path-IsUnder :
    (h : Host) (fs : Fs) (root root_resolved target : AbsPath)
    → safe_local_download_path h fs root root_resolved target ≡ none
    → IsUnder root target
      × ((there : AbsPath) × Nearest (h.eval_symlinks fs) (backwards (without_last target) []) there
          × IsUnder root_resolved there)
      × IsPlain (h.lstat fs target)
unfolding safe_local_download_path
safe_local_download_path-IsUnder h fs root root_resolved target ok =
    elim (Bool-cases (path_escapes_root root target)) [
      | inl e ↦ absurd (cc (rw e at ok))
      | inr e ↦
          (let found_parent = resolve_existing_parent (h.eval_symlinks fs) (without_last target) in
            let (there, same, stays, plain) =
              check_parent_sound root_resolved (h.lstat fs target) found_parent (rw e at ok) in
            let (ends, nearest) =
              resolve_existing_parent-Nearest (h.eval_symlinks fs) (without_last target) in
            (
              stays-IsUnder root target e,
              (there, nearest there same, stays-IsUnder root_resolved there stays),
              plain,
            ))
    ]

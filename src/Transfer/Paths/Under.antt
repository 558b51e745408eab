-- ===== src/Transfer/Paths/Under.antt =====
-- Which paths stay under a root.
use agmux.Base.{
  bytes_eq, bytes_eq_sound, bytes_eq_refl, ◌≡◌, ◌↔◌, refl, false, [], ◌∷◌, ◌++◌, Bytes, All,
  Bool-cases, inl, inr,
}
use agmux.Transfer.{is_up}
use agmux.Transfer.Paths.{AbsPath, climb_out, rel_names, leads_out, path_escapes_root}

abbrev pub IsDownward : Bytes → Type 0
IsDownward name = is_up name ≡ false

-- A path stays under the root if the root's names are its first ones.
abbrev pub IsUnder : AbsPath → AbsPath → Type 0
IsUnder root target = (rest : AbsPath) × (target ≡ root ++ rest)

first_downward : (target : AbsPath) → All IsDownward target → leads_out target ≡ false
unfolding leads_out
first_downward [] all = refl
first_downward (name ∷ target) (below, all) = below

pub stays-IsUnder :
    (root target : AbsPath) → path_escapes_root root target ≡ false → IsUnder root target
unfolding path_escapes_root rel_names leads_out climb_out is_up
stays-IsUnder [] target h = (target, refl)
stays-IsUnder (name ∷ root) [] h = cc h
stays-IsUnder (name ∷ root) (other ∷ target) h = elim (Bool-cases (bytes_eq name other)) [
  | inl e ↦
      (let (rest, same) = stays-IsUnder root target (rw e at h) in
        (rest, rw (bytes_eq_sound name other e, same) refl))
  | inr e ↦ absurd (cc (rw e at h))
]

under_stays :
    (root rest : AbsPath) → All IsDownward rest → path_escapes_root root (root ++ rest) ≡ false
unfolding path_escapes_root rel_names
under_stays [] rest all = first_downward rest all
under_stays (name ∷ root) rest all = rw (bytes_eq_refl name) (under_stays root rest all)

All-rest : (root rest : AbsPath) → All IsDownward (root ++ rest) → All IsDownward rest
All-rest [] rest all = all
All-rest (name ∷ root) rest (_, all) = All-rest root rest all

-- Of the paths that have no "..", exactly those escape that do not go on from the root's names.
pub path_escapes_root-IsUnder :
    (root target : AbsPath)
    → All IsDownward target
    → (path_escapes_root root target ≡ false) ↔ IsUnder root target
path_escapes_root-IsUnder root target all = (
  stays-IsUnder root target,
  λ (rest, same). rw same (under_stays root rest (All-rest root rest (rw same at all))),
)

-- ===== src/Transfer/Paths/Parents.antt =====
-- resolveExistingParent ends.
use agmux.Base.{ℕ, zero, suc, ◌<◌, ◌≡◌, ◌≢◌, sym, refl, ap, [], ◌∷◌, ◌++◌, Bytes, arith, length}
use agmux.Transfer.{backwards}
use agmux.Transfer.Paths.{
  AbsPath, Resolved, resolved, not_there, resolve_failed, Parent, parent, endless, climb_on,
  resolve_loop, resolve_existing_parent,
}

-- The names of the current path, the last one first: the nearest directory above that resolves.
abbrev pub Nearest : (AbsPath → Resolved) → AbsPath → AbsPath → Type 0
Nearest resolve current there =
    (gone kept : AbsPath) × (current ≡ gone ++ kept)
    × (resolve (backwards kept []) ≡ resolved there)
    × ((more less : AbsPath)
        → gone ≡ more ++ less
        → less ≢ []
        → resolve (backwards (less ++ kept) []) ≡ not_there)

empty_end : (more less : AbsPath) → [] ≡ more ++ less → less ≡ []
empty_end [] less e = sym e
empty_end (m ∷ more) less e = cc e

Nearest-here :
    (resolve : AbsPath → Resolved) (current there : AbsPath)
    → resolve (backwards current []) ≡ resolved there
    → Nearest resolve current there
Nearest-here resolve current there h =
    ([], current, refl, h, λ more less e full. absurd (full (empty_end more less e)))

farther :
    (resolve : AbsPath → Resolved) (name : Bytes) (gone kept more less : AbsPath)
    → resolve (backwards (name ∷ gone ++ kept) []) ≡ not_there
    → ((above below : AbsPath)
        → gone ≡ above ++ below
        → below ≢ []
        → resolve (backwards (below ++ kept) []) ≡ not_there)
    → name ∷ gone ≡ more ++ less
    → less ≢ []
    → resolve (backwards (less ++ kept) []) ≡ not_there
farther resolve name gone kept [] less h above e full = rw (← e) h
farther resolve name gone kept (m ∷ more) less h above e full = above more less (cc e) full

Nearest-above :
    (resolve : AbsPath → Resolved) (name : Bytes) (current there : AbsPath)
    → resolve (backwards (name ∷ current) []) ≡ not_there
    → Nearest resolve current there
    → Nearest resolve (name ∷ current) there
Nearest-above resolve name current there h (gone, kept, same, at, above) = (
  name ∷ gone,
  kept,
  rw same refl,
  at,
  λ more less. farther resolve name gone kept more less (rw same at h) above,
)

Ends : (AbsPath → Resolved) → AbsPath → Parent → Type 0
Ends resolve current r =
    (r ≢ endless) × ((there : AbsPath) → r ≡ parent there → Nearest resolve current there)

on_answer :
    (resolve : AbsPath → Resolved) (next : AbsPath → Parent) (current : AbsPath) (r : Resolved)
    → resolve (backwards current []) ≡ r
    → ((name : Bytes) (rest : AbsPath) → current ≡ name ∷ rest → Ends resolve rest (next rest))
    → Ends resolve current (climb_on next current r)
unfolding climb_on Ends
on_answer resolve next current (resolved path) e rest = (
  λ h. cc h,
  λ there h. let same : path ≡ there = cc h in Nearest-here resolve current there (rw (← same) e),
)
on_answer resolve next current resolve_failed e rest = (λ h. cc h, λ there h. cc h)
on_answer resolve next [] not_there e rest = (λ h. cc h, λ there h. cc h)
on_answer resolve next (name ∷ current) not_there e rest =
    let (ends, near) = rest name current refl in
    (ends, λ there h. Nearest-above resolve name current there e (near there h))

loop-Ends :
    (resolve : AbsPath → Resolved) (n : ℕ) (current : AbsPath)
    → length current < n
    → Ends resolve current (resolve_loop resolve n current)
unfolding resolve_loop
loop-Ends resolve zero current h = absurd (omega (arith, h))
loop-Ends resolve (suc n) current h =
    on_answer resolve (resolve_loop resolve n) current (resolve (backwards current [])) refl
      (λ name rest same. loop-Ends resolve n rest (omega (arith, h, ap length same)))

-- The loop ends on every path, and the directory that it returns is what the nearest directory above
-- resolves to: each directory between that one and the path is not there.
pub resolve_existing_parent-Nearest :
    (resolve : AbsPath → Resolved) (path : AbsPath)
    → let r = resolve_existing_parent resolve path in
      (r ≢ endless)
      × ((there : AbsPath) → r ≡ parent there → Nearest resolve (backwards path []) there)
unfolding resolve_existing_parent Ends
resolve_existing_parent-Nearest resolve path =
    loop-Ends resolve (suc (length (backwards path []))) (backwards path []) (omega arith)

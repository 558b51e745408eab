-- ===== src/SocketPath/Safety.antt =====
-- Whose socket is used, and what is removed.
use agmux.Base.{
  ℕ, ◌%◌, ◌≡◌, ◌↔◌, ◌⊎◌, inl, inr, refl, Option, none, some, Bool, true, false, not, if◌then◌else◌,
  arith, Option-cases,
}
use agmux.SocketPath.{
  Info, Stat, missing, stat_failed, found, Refusal, not_a_socket, new_socket, check_owner, validate,
  remove_checked, remove_if_owned_socket, prepare, listen_and_chmod,
}

-- A socket of the user that no other can use.
abbrev pub IsPrivate : ℕ → Info → Type 0
IsPrivate uid i = (i.is_socket ≡ true) × (i.mode % 64 ≡ 0) × (i.owner ≡ some uid)

check_owner_iff : (uid : ℕ) (o : Option ℕ) → (check_owner uid o ≡ none) ↔ (o ≡ some uid)
unfolding check_owner
check_owner_iff uid none = (λ h. cc h, λ h. cc h)
check_owner_iff uid (some owner) = (λ h. ground (arith, h), λ h. ground (arith, h))

validate_found : (uid : ℕ) (i : Info) → (validate uid (found i) ≡ none) ↔ IsPrivate uid i
unfolding validate
validate_found uid i = (
  λ h. (ground (arith, h), ground (arith, h), (check_owner_iff uid i.owner).0 (ground (arith, h))),
  λ (s, b, o). rw (s, b) ((check_owner_iff uid i.owner).1 o),
)

-- The client uses a path exactly if a socket of its user stands there that no other user can open.
validate-IsPrivate :
    (uid : ℕ) (s : Stat) → (validate uid s ≡ none) ↔ ((i : Info) × (s ≡ found i) × IsPrivate uid i)
validate-IsPrivate uid missing = (λ h. unfold validate in cc h, λ (i, e, ok). cc e)
validate-IsPrivate uid stat_failed = (λ h. unfold validate in cc h, λ (i, e, ok). cc e)
validate-IsPrivate uid (found i) = (
  λ h. (i, refl, (validate_found uid i).0 h),
  λ (j, e, ok). let same : i ≡ j = cc e in rw same ((validate_found uid j).1 ok),
)

-- A path is free, or a socket of the user.
abbrev pub MayReplace : ℕ → Stat → Type 0
MayReplace uid s =
    (s ≡ missing) ⊎ ((i : Info) × (s ≡ found i) × (i.is_socket ≡ true) × (i.owner ≡ some uid))

remove_checked_sound :
    (uid : ℕ) (removes : Bool) (s : Stat) (o : Option ℕ)
    → (remove_checked removes s (check_owner uid o)).1 ≡ none
    → o ≡ some uid
unfolding remove_checked
remove_checked_sound uid removes s o h = elim (Option-cases (check_owner uid o)) [
  | inl e ↦ (check_owner_iff uid o).0 e
  | inr (r, e) ↦ absurd (cc (rw e at h))
]

-- The test of the mode bit, on any outcome of it.
checked_found :
    (uid : ℕ) (removes is_socket : Bool) (i : Info)
    → (if not is_socket
        then (found i, some not_a_socket)
        else remove_checked removes (found i) (check_owner uid i.owner)).1
      ≡ none
    → (is_socket ≡ true) × (i.owner ≡ some uid)
checked_found uid removes true i h = (refl, remove_checked_sound uid removes (found i) i.owner h)
checked_found uid removes false i h = cc h

remove_sound :
    (uid : ℕ) (removes : Bool) (s : Stat)
    → (remove_if_owned_socket uid removes s).1 ≡ none
    → MayReplace uid s
unfolding remove_if_owned_socket
remove_sound uid removes missing h = inl refl
remove_sound uid removes stat_failed h = cc h
remove_sound uid removes (found i) h =
    let (socket, mine) = checked_found uid removes i.is_socket i h in inr (i, refl, socket, mine)

listen_sound :
    (uid : ℕ) (listens chmods : Bool) (r : Stat × Option Refusal) (s : Stat)
    → listen_and_chmod uid listens chmods r ≡ (s, true)
    → (r.1 ≡ none) × (validate uid s ≡ none)
unfolding listen_and_chmod
listen_sound uid listens chmods (t, some e) s h = cc h
listen_sound uid listens false (t, none) s h = cc h
listen_sound uid false true (t, none) s h = cc h
listen_sound uid true true (t, none) s h =
    let same : new_socket uid ≡ s = cc h in
    (refl, rw (← same) ((validate_found uid _).1 (refl, refl, refl)))

-- A server that comes up has replaced nothing but a socket of its own user, and leaves a socket that
-- its client accepts.
pub validate-prepare :
    (uid : ℕ) (removes listens chmods : Bool) (s s' : Stat)
    → prepare uid removes listens chmods s ≡ (s', true)
    → MayReplace uid s × (validate uid s' ≡ none)
unfolding prepare
validate-prepare uid removes listens chmods s s' h =
    let (done, ok) = listen_sound uid listens chmods (remove_if_owned_socket uid removes s) s' h in
    (remove_sound uid removes s done, ok)

-- ===== src/CommandLine/Destinations.antt =====
-- What parseDestination reads.
use agmux.Base.{
  ℕ, ◌≡◌, ◌≢◌, ◌⊎◌, ◌↔◌, inl, inr, refl, Option, none, some, false, [], ◌∷◌, ◌++◌, Bytes, contains,
  arith, Option-cases,
}
use agmux.CommandLine.{
  split_last, destination, with_host, with_user, split_destination, parse_destination,
}

split_last-none : (c : ℕ) (s : Bytes) → contains s c ≡ false → split_last c s ≡ none
unfolding split_last contains
split_last-none c [] h = refl
split_last-none c (x ∷ s) h = ground (arith, split_last-none c s)

pub split_last-append :
    (c : ℕ) (a b : Bytes) → contains b c ≡ false → split_last c (a ++ c ∷ b) ≡ some (a, b)
unfolding split_last
split_last-append c [] b h = rw (split_last-none c b h) (ground arith)
split_last-append c (x ∷ a) b h = rw (split_last-append c a b h) refl

none-contains : (c : ℕ) (s : Bytes) → split_last c s ≡ none → contains s c ≡ false
unfolding split_last contains
none-contains c [] h = refl
none-contains c (x ∷ s) h = ground (arith, none-contains c s)

split_last_sound :
    (c : ℕ) (s a b : Bytes)
    → split_last c s ≡ some (a, b)
    → (s ≡ a ++ c ∷ b) × (contains b c ≡ false)
unfolding split_last
split_last_sound c [] a b h = cc
split_last_sound c (x ∷ s) a b h = elim (Option-cases (split_last c s)) [
  | inl e ↦ ground (arith, none-contains c s e, rw e at h)
  | inr ((a', b'), e) ↦ let (es, eb) = split_last_sound c s a' b' e in ground (arith, rw e at h)
]

-- What a destination says: a user and a host, or a host with the current user.
abbrev pub Says : Option Bytes → Bytes → Bytes → Bytes → Type 0
Says current dest user host =
    (host ≢ [])
    × (contains host b'@' ≡ false)
    × (((user ≢ []) × (dest ≡ user ++ b'@' ∷ host))
        ⊎ ((current ≡ some user) × ((dest ≡ b'@' ∷ host) ⊎ (dest ≡ host))))

with_user_sound :
    (current : Option Bytes) (u h user host : Bytes)
    → with_user current u h ≡ destination user host
    → (h ≡ host) × (host ≢ []) × (((user ≢ []) × (u ≡ user)) ⊎ ((current ≡ some user) × (u ≡ [])))
unfolding with_user with_host
with_user_sound none [] h user host e = cc
with_user_sound (some c) [] [] user host e = cc
with_user_sound (some c) [] (x ∷ h) user host e = ground (arith, e)
with_user_sound current (x ∷ u) [] user host e = cc
with_user_sound current (x ∷ u) (y ∷ h) user host e = ground (arith, e)

parse_destination_sound :
    (current : Option Bytes) (dest user host : Bytes)
    → parse_destination current dest ≡ destination user host
    → Says current dest user host
unfolding parse_destination split_destination
parse_destination_sound current dest user host h = elim (Option-cases (split_last b'@' dest)) [
  | inl e ↦
      (let (same, full, which) = with_user_sound current [] dest user host (rw e at h) in
        (full, rw same at (none-contains b'@' dest e), ground (arith, which, same)))
  | inr ((u, k), e) ↦
      (let (parts, free) = split_last_sound b'@' dest u k e in
        let (same, full, which) = with_user_sound current u k user host (rw e at h) in
        (full, rw same at free, ground (arith, which, same, parts)))
]

with_user_complete :
    (current : Option Bytes) (user host : Bytes)
    → host ≢ []
    → (user ≢ [] → with_user current user host ≡ destination user host)
      × (current ≡ some user → with_user current [] host ≡ destination user host)
unfolding with_user with_host
with_user_complete current user [] full = absurd (full refl)
with_user_complete current [] (x ∷ host) full = (λ h. absurd (h refl), λ h. rw h refl)
with_user_complete current (y ∷ user) (x ∷ host) full = (λ h. refl, λ h. rw h refl)

parse_destination_complete :
    (current : Option Bytes) (dest user host : Bytes)
    → Says current dest user host
    → parse_destination current dest ≡ destination user host
unfolding parse_destination split_destination
parse_destination_complete current dest user host (full, free, inl (named, e)) =
    rw (e, split_last-append b'@' user host free)
      ((with_user_complete current user host full).0 named)
parse_destination_complete current dest user host (full, free, inr (cur, inl e)) =
    rw (e, split_last-append b'@' [] host free) ((with_user_complete current user host full).1 cur)
parse_destination_complete current dest user host (full, free, inr (cur, inr e)) =
    rw (e, split_last-none b'@' host free) ((with_user_complete current user host full).1 cur)

-- A destination is read as a user and a host exactly if it is the user, `@` and the host, or the
-- host alone or behind an `@` and the user is the current one; the host is not empty and has no `@`.
pub parse_destination-Says :
    (current : Option Bytes) (dest user host : Bytes)
    → (parse_destination current dest ≡ destination user host) ↔ Says current dest user host
parse_destination-Says current dest user host = (
  parse_destination_sound current dest user host,
  parse_destination_complete current dest user host,
)

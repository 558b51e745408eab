-- ===== src/Client/Dial/Trust.antt =====
-- Which daemon the client talks to, and when it starts one.
use agmux.Base.{
  ℕ, ◌≡◌, ◌≢◌, ◌⊎◌, inl, inr, refl, Option, none, some, Bool, true, false, List, [], ◌∷◌,
  Option-cases, arith,
}
use agmux.SocketPath.{
  Stat, missing, stat_failed, found, Refusal, does_not_exist, validate, check_owner,
}
use agmux.Client.Dial.{
  ConnectResult, connected, connection_refused, connect_failed, Attempt, refused_path,
  refused_connection, DialOnce, connection, no_connection, connect_once, connect_checked, dial_once,
  is_recoverable, Dialled, wait_for_daemon, spawn, recover, dial_or_recover, dial_daemon,
}

-- The attempt made the connection `c` over a private socket to a daemon of the user.
abbrev pub IsTrusted : ℕ → ℕ → Attempt → Type 0
IsTrusted uid c a = (validate uid a.path ≡ none) × (a.connects ≡ connected c) × (a.peer_ok ≡ true)

abbrev pub Among : List (Attempt × Bool) → (Attempt → Type 0) → Type 0
Among [] P = ⊥
Among ((a, late) ∷ more) P = P a ⊎ Among more P

-- Why a daemon is missing: nothing stands at the path, or nobody listens on the user's socket.
abbrev pub IsAbsent : ℕ → Attempt → Type 0
IsAbsent uid a =
    (a.path ≡ missing) ⊎ ((validate uid a.path ≡ none) × (a.connects ≡ connection_refused))

recover_spawns :
    (auto_start starts : Bool) (o : DialOnce) (after : Dialled)
    → (dial_or_recover auto_start starts o after).1 ≡ true
    → (auto_start ≡ true)
      × ((o ≡ no_connection (refused_path does_not_exist)) ⊎ (o ≡ no_connection refused_connection))
unfolding dial_or_recover recover spawn is_recoverable
recover_spawns auto_start starts (connection d) after h = cc h
recover_spawns false starts (no_connection f) after h = cc h
recover_spawns true starts (no_connection refused_connection) after h = (refl, inr refl)
recover_spawns true starts (no_connection (refused_path does_not_exist)) after h = (refl, inl refl)
recover_spawns true starts (no_connection f) after h = cc h

check_owner_exists : (uid : ℕ) (o : Option ℕ) → check_owner uid o ≢ some does_not_exist
unfolding check_owner
check_owner_exists uid none h = cc h
check_owner_exists uid (some owner) h = ground (arith, h)

no_path : (uid : ℕ) (s : Stat) → validate uid s ≡ some does_not_exist → s ≡ missing
unfolding validate
no_path uid missing h = refl
no_path uid stat_failed h = cc h
no_path uid (found i) h = absurd (ground (arith, h, check_owner_exists uid i.owner))

refused :
    (r : ConnectResult) (ok : Bool)
    → connect_once r ok ≡ no_connection refused_connection
    → r ≡ connection_refused
unfolding connect_once
refused connection_refused ok h = refl
refused connect_failed ok h = cc h
refused (connected c) true h = cc h
refused (connected c) false h = cc h

not_path :
    (r : ConnectResult) (ok : Bool) (e : Refusal)
    → connect_once r ok ≢ no_connection (refused_path e)
unfolding connect_once
not_path connection_refused ok e h = cc h
not_path connect_failed ok e h = cc h
not_path (connected c) true e h = cc h
not_path (connected c) false e h = cc h

dial_once-IsAbsent :
    (uid : ℕ) (a : Attempt)
    → (dial_once uid a ≡ no_connection (refused_path does_not_exist))
      ⊎ (dial_once uid a ≡ no_connection refused_connection)
    → IsAbsent uid a
unfolding dial_once connect_checked
dial_once-IsAbsent uid a h = elim (Option-cases (validate uid a.path)) [
  | inl e ↦ elim h [
    | inl k ↦ absurd (not_path a.connects a.peer_ok does_not_exist (rw e at k))
    | inr k ↦ inr (e, refused a.connects a.peer_ok (rw e at k))
  ]
  | inr (r, e) ↦ elim h [
    | inl k ↦
        (let same : r ≡ does_not_exist = cc (rw e at k) in inl (no_path uid a.path (rw same at e)))
    | inr k ↦ absurd (cc (rw e at k))
  ]
]

-- The client starts a daemon only if it may and none is there: never because a socket is somebody
-- else's, too open, or served by another user.
pub dial_daemon-IsAbsent :
    (uid : ℕ) (auto_start starts : Bool) (a : Attempt) (more : List (Attempt × Bool))
    → (dial_daemon uid auto_start starts a more).1 ≡ true
    → (auto_start ≡ true) × IsAbsent uid a
unfolding dial_daemon
dial_daemon-IsAbsent uid auto_start starts a more h =
    let (may, why) =
      recover_spawns auto_start starts (dial_once uid a) (wait_for_daemon uid more) h in
    (may, dial_once-IsAbsent uid a why)

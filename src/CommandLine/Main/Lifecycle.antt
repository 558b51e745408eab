-- ===== src/CommandLine/Main/Lifecycle.antt =====
-- Which command lines may start the daemon.
use agmux.Base.{
  ℕ, ◌≡◌, ◌∙◌, sym, refl, Option, none, some, Bool, true, false, not, ◌||◌, List, [], ◌∷◌, Bytes,
  codes, bytes_eq, bytes_eq_sound, All, Bool-cases, inl, inr, contains,
}
use agmux.Client.Dial.{Attempt, dial_daemon}
use agmux.Client.Dial.Trust.{IsAbsent, dial_daemon-IsAbsent}
use agmux.CommandLine.Main.{
  take_socket, Handler, run_start, run_server, run_ping, run_stop, run_destination, runs, may_start,
  other_command, commands, find_command, run_command, first_word, starts_by, main,
}

-- The commands that control or test the daemon itself.
unfoldable pub is_lifecycle : Handler → Bool
is_lifecycle run_start = true
is_lifecycle run_server = true
is_lifecycle run_ping = true
is_lifecycle run_stop = true
is_lifecycle h = false

abbrev Agrees : Bytes × Handler → Type 0
Agrees e = may_start e.0 ≡ not (is_lifecycle e.1)

commands-All : All Agrees commands
unfolding commands may_start is_lifecycle
commands-All = (
  refl,
  (
    refl,
    (
      refl,
      (
        refl,
        (
          refl,
          (
            refl,
            (
              refl,
              (
                refl,
                (
                  refl,
                  (
                    refl,
                    (refl, (refl, (refl, (refl, (refl, (refl, (refl, (refl, (refl, tt))))))))),
                  ),
                ),
              ),
            ),
          ),
        ),
      ),
    ),
  ),
)

find_command-Agrees :
    (cmd : Bytes) (h : Handler) (table : List (Bytes × Handler))
    → All Agrees table
    → find_command cmd table ≡ some h
    → may_start cmd ≡ not (is_lifecycle h)
unfolding find_command
find_command-Agrees cmd h [] all found = cc found
find_command-Agrees cmd h ((word, handler) ∷ table) (agrees, all) found =
    elim (Bool-cases (bytes_eq cmd word)) [
      | inl e ↦
          (let same : handler ≡ h = cc (rw e at found) in
            rw (bytes_eq_sound cmd word e, ← same) agrees)
      | inr e ↦ find_command-Agrees cmd h table all (rw e at found)
    ]

abbrev Differs : Bytes → Bytes × Handler → Type 0
Differs cmd e = bytes_eq cmd e.0 ≡ false

find_command-none :
    (cmd : Bytes) (table : List (Bytes × Handler))
    → find_command cmd table ≡ none
    → All (Differs cmd) table
unfolding find_command
find_command-none cmd [] h = tt
find_command-none cmd ((word, handler) ∷ table) h = elim (Bool-cases (bytes_eq cmd word)) [
  | inl e ↦ absurd (cc (rw e at h))
  | inr e ↦ (e, find_command-none cmd table (rw e at h))
]

apart : (cmd : Bytes) → All (Differs cmd) commands → may_start cmd ≡ true
unfolding may_start commands
apart cmd
      (
        start,
        (
          server,
          (
            c,
            (
              l,
              (
                k,
                (
                  e,
                  (r, (ls, (lst, (u, (f, (fs, (fc, (scp, (sync, (sftp, (ping, (stop, _)))))))))))),
                ),
              ),
            ),
          ),
        ),
      ) =
    rw (start, stop, ping, server) refl

unknown_starts : (cmd : Bytes) → find_command cmd commands ≡ none → may_start cmd ≡ true
unknown_starts cmd h = apart cmd (find_command-none cmd commands h)

other_runs :
    (cmd : Bytes) (args rest : List Bytes) (h : Handler)
    → other_command cmd args ≡ runs h rest
    → is_lifecycle h ≡ false
unfolding other_command
other_runs cmd args rest h e = elim (Bool-cases (contains cmd b'@')) [
  | inl at ↦
      (let same : run_destination cmd ≡ h = cc (rw at at e) in
        rw (← same) (unfold is_lifecycle in refl))
  | inr at ↦ absurd (cc (rw at at e))
]

runs_agree :
    (cmd : Bytes) (args rest : List Bytes) (h : Handler) (o : Option Handler)
    → find_command cmd commands ≡ o
    → run_command cmd args o ≡ runs h rest
    → may_start cmd ≡ not (is_lifecycle h)
unfolding run_command
runs_agree cmd args rest h none found e =
    rw (unknown_starts cmd found, other_runs cmd args rest h e) refl
runs_agree cmd args rest h (some handler) found e =
    let same : handler ≡ h = cc e in
    find_command-Agrees cmd h commands commands-All (rw (← same) found)

first_word_agrees :
    (words rest : List Bytes) (h : Handler)
    → first_word words ≡ runs h rest
    → starts_by words ≡ not (is_lifecycle h)
unfolding first_word
first_word_agrees [] rest h e = cc e
first_word_agrees (cmd ∷ args) rest h e =
    elim (Bool-cases (bytes_eq cmd (codes "-v") || bytes_eq cmd (codes "--version"))) [
      | inl v ↦ absurd (cc (rw v at e))
      | inr v ↦ elim (Bool-cases (bytes_eq cmd (codes "-h") || bytes_eq cmd (codes "--help"))) [
        | inl w ↦ absurd (cc (rw (v, w) at e))
        | inr w ↦ runs_agree cmd args rest h (find_command cmd commands) refl (rw (v, w) at e)
      ]
    ]

not-false : (b : Bool) → not b ≡ true → b ≡ false
not-false true h = cc h
not-false false h = refl

-- No command that controls or tests the daemon starts one on the way: if the client, run for a command
-- line, spawns a daemon in order to connect, the command is none of start, stop, ping and server, and
-- no daemon was there.
pub main-IsAbsent :
    (path : Bytes) (args rest : List Bytes) (h : Handler) (uid : ℕ) (starts : Bool) (a : Attempt)
    (more : List (Attempt × Bool))
    → (main path args).action ≡ runs h rest
    → (dial_daemon uid (main path args).allow_auto_start starts a more).1 ≡ true
    → (is_lifecycle h ≡ false) × IsAbsent uid a
unfolding main
main-IsAbsent path args rest h uid starts a more e spawned =
    let words = (take_socket path args).1 in
    let (may, absent) = dial_daemon-IsAbsent uid (starts_by words) starts a more spawned in
    (not-false (is_lifecycle h) (sym (first_word_agrees words rest h e) ∙ may), absent)

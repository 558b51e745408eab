-- ===== src/CommandLine/Main.antt =====
-- cmd/gssh/main.go: the global option -S, and which handler a command line runs.
pub mod Flags
pub mod Lifecycle
use agmux.Base.{
  ℕ, suc, ◌+◌, ◌≤◌, ◌≡◌, ◌≢◌, ◌⊎◌, inl, inr, refl, Option, none, some, Bool, true, false, ◌||◌,
  List, [], ◌∷◌, if◌then◌else◌, Bytes, String, codes, bytes_eq, contains, All,
}

-- The loop over the arguments: each -S with an argument behind it is taken out, and the last one counts.
unfoldable pub take_socket : Bytes → List Bytes → Bytes × List Bytes
unfolding bytes_eq
take_socket path [] = (path, [])
take_socket path (arg ∷ []) = (path, arg ∷ [])
take_socket path (arg ∷ next ∷ args) =
    let taken = take_socket next args in
    let kept = take_socket path (next ∷ args) in
    if bytes_eq arg (codes "-S") then taken else (kept.0, arg ∷ kept.1)

pub data Handler : Type 0 where
  run_start run_server run_connect run_local run_kill run_exec run_run run_list run_use : Handler
  run_forward run_forwards run_forward_close run_scp run_sftp run_ping run_stop run_help : Handler
  run_destination : Bytes → Handler

pub data Action : Type 0 where
  print_version print_usage no_command : Action
  unknown : Bytes → Action
  runs : Handler → List Bytes → Action

-- The two switches on the command: whether the daemon may be started, and the handler.
unfoldable pub may_start : Bytes → Bool
unfolding bytes_eq
may_start cmd =
    if bytes_eq cmd (codes "start")
      || bytes_eq cmd (codes "stop")
      || bytes_eq cmd (codes "ping")
      || bytes_eq cmd (codes "server")
    then false
    else true

unfoldable pub other_command : Bytes → List Bytes → Action
unfolding contains
other_command cmd args = if contains cmd b'@' then runs (run_destination cmd) args else unknown cmd

unfoldable pub commands : List (Bytes × Handler)
commands =
    (codes "start", run_start)
    ∷ (codes "server", run_server)
    ∷ (codes "connect", run_connect)
    ∷ (codes "local", run_local)
    ∷ (codes "kill", run_kill)
    ∷ (codes "exec", run_exec)
    ∷ (codes "run", run_run)
    ∷ (codes "list", run_list)
    ∷ (codes "ls", run_list)
    ∷ (codes "use", run_use)
    ∷ (codes "forward", run_forward)
    ∷ (codes "forwards", run_forwards)
    ∷ (codes "forward-close", run_forward_close)
    ∷ (codes "scp", run_scp)
    ∷ (codes "sync", run_scp)
    ∷ (codes "sftp", run_sftp)
    ∷ (codes "ping", run_ping)
    ∷ (codes "stop", run_stop)
    ∷ (codes "help", run_help)
    ∷ []

unfoldable pub find_command : Bytes → List (Bytes × Handler) → Option Handler
unfolding bytes_eq
find_command cmd [] = none
find_command cmd (c ∷ table) = if bytes_eq cmd c.0 then some c.1 else find_command cmd table

unfoldable pub run_command : Bytes → List Bytes → Option Handler → Action
unfolding other_command
run_command cmd args none = other_command cmd args
run_command cmd args (some handler) = runs handler args

unfoldable pub first_word : List Bytes → Action
unfolding run_command find_command commands bytes_eq
first_word [] = no_command
first_word (cmd ∷ args) =
    if bytes_eq cmd (codes "-v") || bytes_eq cmd (codes "--version")
    then print_version
    else if bytes_eq cmd (codes "-h") || bytes_eq cmd (codes "--help")
    then print_usage
    else run_command cmd args (find_command cmd commands)

abbrev pub starts_by : List Bytes → Bool
starts_by [] = true
starts_by (cmd ∷ args) = may_start cmd

-- What a command line does: the socket, whether a daemon may be started for it, and the action.
pub record Invocation : Type 0 where
  pub socket_path : Bytes
  pub allow_auto_start : Bool
  pub action : Action

unfoldable pub main : Bytes → List Bytes → Invocation
unfolding take_socket first_word may_start
main default_path args =
    let taken = take_socket default_path args in
    record {
      socket_path = taken.0;
      allow_auto_start = starts_by taken.1;
      action = first_word taken.1;
    }

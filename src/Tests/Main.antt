-- ===== src/Tests/Main.antt =====
-- Command lines at concrete words.
use agmux.Base.{
  ◌+◌, ◌*◌, ◌≡◌, refl, pos, negsuc, int64, none, some, true, false, List, [], ◌∷◌, ◌++◌, Bytes,
  codes, bytes_eq, arith,
}
use agmux.Imsg.{new_imsg, read_message, ok}
use agmux.Imsg.Encode.{frame}
use agmux.Server.Messages.{kill, Codec, msg_type, request, decode}
use agmux.SocketPath.{missing, validate}
use agmux.Client.Dial.{
  Attempt, connect_failed, dial_daemon, dial_or_recover, recover, spawn, is_recoverable, dial_once,
  connect_checked,
}
use agmux.Client.Dial.Trust.{IsAbsent}
use agmux.CommandLine.Main.{
  take_socket, run_exec, runs, may_start, commands, find_command, run_command, first_word, main,
}
use agmux.CommandLine.Main.Flags.{main-take_socket}
use agmux.CommandLine.Main.Lifecycle.{is_lifecycle, main-IsAbsent}
use agmux.CommandLine.Plans.{ExecOptions, cmd_deadline, buffered, handle_exec_args, handle_run_args}
use agmux.CommandLine.Plans.Deadlines.{Waits, handle_exec_args-Waits}
use agmux.CommandLine.Plans.Wire.{Marshal, payload_of, decode-frame}

abbrev exec_words : List Bytes
exec_words = codes "exec" ∷ codes "uptime" ∷ []

exec_runs : (main (codes "/s") exec_words).action ≡ runs run_exec (codes "uptime" ∷ [])
unfolding main first_word take_socket find_command commands run_command bytes_eq
exec_runs = refl

ping_waits : (main (codes "/s") (codes "ping" ∷ [])).allow_auto_start ≡ false
unfolding main take_socket may_start bytes_eq
ping_waits = refl

-- The option of a command is taken for the global one.
swallowed :
    take_socket (codes "/s") (codes "run" ∷ codes "ls" ∷ codes "-S" ∷ codes "/tmp" ∷ [])
    ≡ (codes "/tmp", codes "run" ∷ codes "ls" ∷ [])
unfolding take_socket bytes_eq
swallowed = refl

main-take_socket_example :
    main (codes "/s") (codes "exec" ∷ codes "-S" ∷ codes "/other" ∷ codes "uptime" ∷ [])
    ≡ record (main (codes "/s") exec_words) { socket_path = codes "/other" }
main-take_socket_example =
    main-take_socket (codes "/s") (codes "/other") (codes "exec" ∷ []) (codes "uptime" ∷ [])
      (unfold bytes_eq in (refl, tt)) (unfold bytes_eq in (refl, tt))

abbrev nothing_there : Attempt
nothing_there = record { path = missing; connects = connect_failed; peer_ok = false }

spawned :
    (dial_daemon 1000 (main (codes "/s") exec_words).allow_auto_start true nothing_there []).1
    ≡ true
unfolding main take_socket may_start bytes_eq dial_daemon dial_or_recover recover spawn
    is_recoverable dial_once connect_checked validate
spawned = refl

main-IsAbsent_example : (is_lifecycle run_exec ≡ false) × IsAbsent 1000 nothing_there
main-IsAbsent_example =
    main-IsAbsent (codes "/s") exec_words (codes "uptime" ∷ []) run_exec 1000 true nothing_there []
      exec_runs spawned

abbrev five_seconds : ExecOptions
five_seconds = record {
  name = "";
  timeout = pos 5;
  sudo = record { enabled = false; password = []; user = []; login = false };
  stream = false;
}

handle_exec_args-Waits_example :
    Waits (pos (5 * 1000000000 + 30000000000)) (handle_exec_args five_seconds (codes "make" ∷ []))
    × Waits (pos (5 * 1000000000 + 30000000000)) (handle_run_args five_seconds (codes "make" ∷ []))
handle_exec_args-Waits_example =
    handle_exec_args-Waits five_seconds (codes "make" ∷ []) 5 refl (omega arith) (omega arith)

-- A longer timeout wraps round, and the deadline has passed before the request is sent.
wrapped_deadline : cmd_deadline (pos 9223372007) ≡ negsuc 9223372036709551615
unfolding cmd_deadline buffered int64
wrapped_deadline = refl

-- A codec that knows one name.
abbrev one_name : Codec
one_name = record {
  connect_params = λ b. none;
  name_params = λ b. some "db";
  exec_params = λ b. none;
  local_exec_params = λ b. none;
  use_params = λ b. none;
  forward_params = λ b. none;
  forward_close_params = λ b. none;
  scp_params = λ b. none;
  sftp_params = λ b. none;
}

abbrev names_only : Marshal
names_only = record {
  connect_params = λ p. [];
  name_params = λ p. codes "{\"name\":\"db\"}";
  exec_params = λ p. [];
  local_exec_params = λ p. [];
  use_params = λ p. [];
  forward_params = λ p. [];
  forward_close_params = λ p. [];
  scp_params = λ p. [];
  sftp_params = λ p. [];
}

decode-frame_example :
    (read_message
        (frame (new_imsg (msg_type (kill "db")) (payload_of names_only (kill "db"))) ++ [])
      ≡ ok (new_imsg (msg_type (kill "db")) (payload_of names_only (kill "db"))) [])
    × (decode one_name
          (new_imsg (msg_type (kill "db")) (payload_of names_only (kill "db"))).msg_type
          (new_imsg (msg_type (kill "db")) (payload_of names_only (kill "db"))).payload
        ≡ request (kill "db"))
decode-frame_example =
    decode-frame one_name names_only (kill "db") [] refl (unfold payload_of in omega arith)

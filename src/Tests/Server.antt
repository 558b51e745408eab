-- ===== src/Tests/Server.antt =====
-- The server and its client at concrete requests.
use agmux.Base.{
  pos, ◌≡◌, List, [], ◌∷◌, ◌++◌, Option, some, none, true, false, codes, str_eq, if◌then◌else◌,
  ◌==◌, Bytes,
}
use agmux.Session.{SshSession, ssh, connected}
use agmux.Manager.{new_manager, allocate, set_default, accepted}
use agmux.Manager.Methods.{new_local}
use agmux.Monitor.{new_monitor, watch}
use agmux.Exec.Stream.{stream}
use agmux.Server.{Server}
use agmux.Server.Messages.{ExecParams, Chunk, StreamEnd}
use agmux.Server.Messages
use agmux.Server.Handlers
use agmux.Server.Handlers.{World, Reply}
use agmux.Server.Dispatch.{Encoder, stream_end, dispatch}
use agmux.Server.Audit.{actions, audited, dispatch-audited}
use agmux.Client.{Decoder, Screen}
use agmux.Tests.Exec.{fails_with_3, as_admin}

abbrev prod : SshSession
prod = record {
  name = "prod";
  host = "web";
  user = "ann";
  port = pos 22;
  password = "";
  key_path = "";
  status = connected;
  client = some 0;
  created_at = pos 1;
  last_cmd = [];
}

abbrev pub running : Server
running = record {
  manager =
      set_default "prod"
        (allocate "prod" (ssh prod) (allocate "box" (new_local "box" "ann" (pos 1)) new_manager));
  monitor = watch "prod" 1 new_monitor;
  service = record { forwards = []; net = record { is_listening = λ l. false; next_listener = 0 } };
  audit = [];
}

abbrev some_world : World
some_world = record {
  now = pos 2;
  os_user = "ann";
  dial = accepted;
  polls = [];
  new_session = none;
  timer_first = false;
  process = fails_with_3;
  forward_id = "3f2a";
  listens = true;
  starts = true;
  transfer = Handlers.transfer_error;
  names = none;
  sftp_done = true;
}

-- A codec that marks a chunk by its stream and an end by whether it failed.
abbrev encoder : Encoder
encoder = record {
  reply = λ r. codes "{}";
  error_payload = λ f. codes "error";
  too_large_payload = codes "too large";
  chunk = λ c. (if str_eq c.stream "stderr" then 2 else 1) ∷ c.bytes;
  stream_end = λ x. if x.failed then 1 ∷ [] else 0 ∷ [];
}

abbrev chunk_of : Bytes → Option Chunk
chunk_of [] = none
chunk_of (n ∷ b) = some (record { stream = if n == 2 then "stderr" else "stdout"; bytes = b })

abbrev end_of : Bytes → Option StreamEnd
end_of [] = none
end_of (n ∷ b) = some (record { exit_code = if n == 0 then pos 3 else pos 1; failed = n == 1 })

abbrev decoder : Decoder
decoder = record { error_message = λ b. some b; chunk = chunk_of; stream_end = end_of }

abbrev make : ExecParams
make = record { name = "box"; command = codes "make"; timeout = pos 0; sudo = as_admin }

abbrev writes : List Chunk
writes =
    record { stream = "stdout"; bytes = codes "ou" }
    ∷ record { stream = "stderr"; bytes = codes "!" }
    ∷ record { stream = "stdout"; bytes = codes "t" }
    ∷ []

abbrev blank_screen : Screen
blank_screen = record { stdout = []; stderr = [] }

dispatch-audited_example :
    actions (dispatch (Messages.kill "gone") some_world running).0
    ≡ actions running
      ++ audited (Messages.kill "gone") (dispatch (Messages.kill "gone") some_world running).1
dispatch-audited_example = dispatch-audited (Messages.kill "gone") some_world running

-- ===== src/Server/Handlers.antt =====
-- internal/server/server.go: the cases of dispatch, one function each.
use agmux.Base.{
  ℕ, ℤ, String, Option, none, some, Bool, true, false, ◌&&◌, ◌||◌, not, List, map, if◌then◌else◌,
  Bytes,
}
use agmux.Session.{Session, offline, disconnected, status_eq, get_name, get_status, is_local}
use agmux.Manager.{Manager, Error, DialResult, Request, Outcome, returned, failed, blocked, get}
use agmux.Manager.Await.{Poll, AwaitResult, got_client, await_client}
use agmux.Manager.Methods
use agmux.Monitor.{watch, stop_watch}
use agmux.Forward.{Forwarder, ForwardError, Spec}
use agmux.Forward.Service.{Service, Added, added, not_added, add, Closed, close_forward}
use agmux.Forward.Service
use agmux.Exec.{ExecResult, Err, Process, Transport}
use agmux.Exec.Run.{run}
use agmux.Exec.Executor.{ExecReply, ran, session_error, Target, exec}
use agmux.Server.{
  Server, success, error, log, plain_entry, exec_audit_result, log_exec, SessionInfo,
  session_to_info,
}
use agmux.Server.Messages.{ConnectParams, UseParams, ExecParams, LocalExecParams, ForwardParams}

-- A transfer: an error, or the result that the service reports.
pub data Transferred : Type 0 where
  transfer_error : Transferred
  transferred : Bool → Bytes → ℕ → Transferred

-- What the world answers while a request is handled.
pub record World : Type 0 where
  pub now : ℤ
  pub os_user : String
  pub dial : DialResult
  pub polls : List Poll
  pub new_session : Option ℕ
  pub timer_first : Bool
  pub process : Process
  pub forward_id : String
  pub listens : Bool
  pub starts : Bool
  pub transfer : Transferred
  pub names : Option (List Bytes)
  pub sftp_done : Bool

pub data Failure : Type 0 where
  manager_error : Error → Failure
  exec_failed : Err → Failure
  no_target : Target → Failure
  forward_failed : ForwardError → Failure
  not_closed : Closed → Failure
  no_session local_session not_ready transfer_failed invalid_params invalid_stream_params : Failure
  unknown_type : ℕ → Failure

-- `pending`: the handler waits for a session whose polls have run out.
pub data Reply : Type 0 where
  info : SessionInfo → Reply
  infos : List SessionInfo → Reply
  result : ExecResult → Reply
  forward_info : Forwarder → Reply
  forward_infos : List Forwarder → Reply
  transfer_result : Bool → Bytes → ℕ → Reply
  names : List Bytes → Reply
  killed ok closed created removed stopping pong pending : Reply
  failure : Failure → Reply

-- MsgConnect
unfoldable pub connected_reply : Server → Manager × Outcome → Server × Reply
connected_reply s (m, returned ref) =
    let name = get_name (m.heap ref) in
    (
      log (plain_entry name "connect" success)
          (record s { manager = m; monitor = watch name ref s.monitor }),
      info (session_to_info (m.heap ref)),
    )
connected_reply s (m, failed e) =
    (log (plain_entry "" "connect" error) (record s { manager = m }), failure (manager_error e))
connected_reply s (m, blocked) = (record s { manager = m }, pending)

abbrev pub request_of : ConnectParams → Request
request_of p = record {
  name = p.name;
  user = p.user;
  host = p.host;
  port = p.port;
  password = p.password;
  key_path = p.key_path;
}

unfoldable pub handle_connect : ConnectParams → World → Server → Server × Reply
unfolding connected_reply
handle_connect p w s =
    connected_reply s (Methods.connect_ssh (request_of p) w.now w.polls w.dial s.manager)

-- MsgLocal
unfoldable pub local_reply : Server → Manager × Outcome → Server × Reply
local_reply s (m, returned ref) = (record s { manager = m }, info (session_to_info (m.heap ref)))
local_reply s (m, failed e) = (record s { manager = m }, failure (manager_error e))
local_reply s (m, blocked) = (record s { manager = m }, pending)

unfoldable pub handle_local : String → World → Server → Server × Reply
unfolding local_reply
handle_local name w s = local_reply s (Methods.connect_local name w.os_user w.now s.manager)

-- MsgKill: the watch and the audit entry take the name as it was given, the manager resolves it.
unfoldable pub killed_reply : String → Server → Manager × Outcome → Server × Reply
killed_reply name s (m, returned ref) =
    (log (plain_entry name "kill" success) (record s { manager = m }), killed)
killed_reply name s (m, failed e) = (record s { manager = m }, failure (manager_error e))
killed_reply name s (m, blocked) = (record s { manager = m }, pending)

unfoldable pub handle_kill : String → Server → Server × Reply
unfolding killed_reply
handle_kill name s =
    killed_reply name (record s { monitor = stop_watch name s.monitor })
      (Methods.kill name s.manager)

-- MsgExec and MsgLocalExec
unfoldable pub exec_outcome :
    String → Bytes → Option Err → Option ExecResult → Server → Server × Reply
exec_outcome name command (some e) r s =
    (log_exec name command (exec_audit_result (some e) none) s, failure (exec_failed e))
exec_outcome name command none (some r) s =
    (log_exec name command (exec_audit_result none (some r)) s, result r)
exec_outcome name command none none s = (log_exec name command (exec_audit_result none none) s, ok)

unfoldable pub exec_reply : String → Bytes → Server → Manager × ExecReply → Server × Reply
unfolding exec_outcome
exec_reply name command s (m, ran r) =
    exec_outcome name command r.err r.result (record s { manager = m })
exec_reply name command s (m, session_error t) =
    (log_exec name command error (record s { manager = m }), failure (no_target t))

unfoldable pub handle_exec : ExecParams → World → Server → Server × Reply
unfolding exec_reply
handle_exec p w s =
    exec_reply p.name p.command s (
      exec p.name p.command p.timeout p.sudo w.polls w.new_session w.timer_first w.process
        s.manager)

unfoldable pub handle_local_exec : LocalExecParams → World → Server → Server × Reply
unfolding exec_outcome
handle_local_exec p w s =
    let r = run Transport.local none p.sudo p.timeout w.timer_first w.process in
    exec_outcome "" p.command r.err r.result s

-- MsgList
unfoldable pub handle_list : Server → Server × Reply
handle_list s = (s, infos (map session_to_info (Methods.list s.manager)))

-- MsgUse: the monitor is armed again if the session was offline or disconnected before.
unfoldable pub is_down : Session → Bool
is_down s =
    not (is_local s) && (status_eq (get_status s) offline || status_eq (get_status s) disconnected)

unfoldable pub was_offline : String → Manager → Bool
unfolding is_down
was_offline name m = elim (get name m) [ none ↦ false | some ref ↦ is_down (m.heap ref) ]

unfoldable pub rearm_found : Option ℕ → Server → Server
rearm_found none s = s
rearm_found (some ref) s =
    let t = s.manager.heap ref in
    if is_local t then s else record s { monitor = watch (get_name t) ref s.monitor }

unfoldable pub rearm : Bool → String → Server → Server
unfolding rearm_found
rearm false name s = s
rearm true name s = rearm_found (get name s.manager) s

unfoldable pub used_reply : Bool → String → Server → Manager × Outcome → Server × Reply
unfolding rearm
used_reply offline_before name s (m, returned ref) =
    (rearm offline_before name (record s { manager = m }), ok)
used_reply offline_before name s (m, failed e) =
    (record s { manager = m }, failure (manager_error e))
used_reply offline_before name s (m, blocked) = (record s { manager = m }, pending)

unfoldable pub handle_use : UseParams → World → Server → Server × Reply
unfolding used_reply was_offline
handle_use p w s =
    used_reply (was_offline p.name s.manager) p.name s
      (Methods.use_session p.name p.password p.key_path w.dial s.manager)

-- MsgForward
unfoldable pub added_reply : Server → Service × Added → Server × Reply
added_reply s (v, added f) = (record s { service = v }, forward_info f)
added_reply s (v, not_added e) = (record s { service = v }, failure (forward_failed e))

unfoldable pub add_over : AwaitResult → String → Spec → World → Server → Server × Reply
unfolding added_reply
add_over (got_client c) session spec w s =
    added_reply s (add session (some c) spec w.listens w.starts s.service)
add_over AwaitResult.waiting session spec w s = (s, pending)
add_over a session spec w s = (s, failure not_ready)

unfoldable pub forward_over : Option ℕ → ForwardParams → World → Server → Server × Reply
unfolding add_over
forward_over none p w s = (s, failure no_session)
forward_over (some ref) p w s =
    let t = s.manager.heap ref in
    if is_local t
    then (s, failure local_session)
    else add_over (await_client w.polls) (get_name t)
        (record {
          id = w.forward_id;
          forward_type = p.forward_type;
          local_port = p.local_port;
          remote_port = p.remote_port;
          bind_addr = p.bind_addr;
        })
        w s

unfoldable pub handle_forward : ForwardParams → World → Server → Server × Reply
unfolding forward_over
handle_forward p w s = forward_over (get p.name s.manager) p w s

-- MsgForwards and MsgForwardClose
unfoldable pub handle_forwards : Server → Server × Reply
handle_forwards s = (s, forward_infos (Service.list s.service))

unfoldable pub closed_reply : Server → Service × Closed → Server × Reply
closed_reply s (v, Closed.closed id) = (record s { service = v }, closed)
closed_reply s (v, r) = (record s { service = v }, failure (not_closed r))

unfoldable pub handle_forward_close : String → Server → Server × Reply
unfolding closed_reply
handle_forward_close id s = closed_reply s (close_forward id s.service)

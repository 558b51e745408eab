-- ===== src/Server.antt =====
-- internal/server/server.go and the message types of internal/protocol: the state of the daemon, the
-- audit log of internal/audit as a list of entries, and what a session looks like to a client.
pub mod Messages
pub mod Handlers
pub mod Dispatch
pub mod Watching
pub mod Audit
pub mod Lifecycle
use agmux.Base.{
  ℕ, ℤ, pos, String, Option, none, some, Bool, true, false, ◌&&◌, ◌||◌, not, str_eq, int_eq, List,
  [], ◌∷◌, ◌++◌, if◌then◌else◌, Bytes,
}
use agmux.Session.{
  Session, SshSession, ssh, local, Status, get_name, get_type, get_host, get_user, get_status,
  get_created_at, get_last_cmd,
}
use agmux.Manager.{Manager}
use agmux.Monitor.{Monitor}
use agmux.Forward.Service.{Service}
use agmux.Exec.{ExecResult, Err}

pub data AuditResult : Type 0 where
  success error : AuditResult
  exit : ℤ → AuditResult

-- audit.Entry, without the time that Log adds.
pub record Entry : Type 0 where
  pub session : String
  pub action : String
  pub command : Bytes
  pub result : AuditResult

pub record Server : Type 0 where
  pub manager : Manager
  pub monitor : Monitor
  pub service : Service
  pub audit : List Entry

-- Logger.Log, with the file open.
unfoldable pub log : Entry → Server → Server
log e s = record s { audit = s.audit ++ e ∷ [] }

unfoldable pub plain_entry : String → String → AuditResult → Entry
plain_entry session action result = record {
  session = session;
  action = action;
  command = [];
  result = result;
}

-- The result that logExecAudit writes.
unfoldable pub exec_audit_result : Option Err → Option ExecResult → AuditResult
exec_audit_result (some e) r = error
exec_audit_result none none = success
exec_audit_result none (some r) =
    if not (int_eq r.exit_code (pos 0)) then exit r.exit_code else success

-- logExecAudit
unfoldable pub log_exec : String → Bytes → AuditResult → Server → Server
unfolding log
log_exec session command result =
    log (record { session = session; action = "exec"; command = command; result = result })

-- protocol.SessionInfo, whose key path is never filled in.
pub record SessionInfo : Type 0 where
  pub name : String
  pub session_type : String
  pub host : String
  pub user : String
  pub port : ℤ
  pub status : Status
  pub created_at : ℤ
  pub last_cmd : Bytes

unfoldable pub port_of : Session → ℤ
port_of (ssh s) = s.port
port_of (local s) = pos 0

-- sessionToInfo
unfoldable pub session_to_info : Session → SessionInfo
unfolding port_of
session_to_info s = record {
  name = get_name s;
  session_type = get_type s;
  host = get_host s;
  user = get_user s;
  port = port_of s;
  status = get_status s;
  created_at = get_created_at s;
  last_cmd = get_last_cmd s;
}

-- ===== src/CommandLine/Plans.antt =====
-- cmd/gssh/commands.go and handleDestination of dest.go: the request that each command sends, and how
-- long it waits for the answer. The options are parsed; `text` is a string whose bytes were read.
pub mod Wire
pub mod Deadlines
use agmux.Base.{
  ℕ, ◌+◌, ◌*◌, ℤ, pos, negsuc, positive, int64, String, str_eq, Option, none, some, Bool, true,
  false, ◌&&◌, List, [], ◌∷◌, if◌then◌else◌, Bytes, codes, bytes_eq,
}
use agmux.Exec.{SudoOptions}
use agmux.Shell.{join_command_args}
use agmux.Server.Messages.{
  ConnectParams, UseParams, ExecParams, LocalExecParams, ScpParams, SftpParams, Request, connect,
  local_session, kill, exec, exec_stream, local_exec, local_exec_stream, list, forwards, ping, stop,
  use_session, forward, forward_close, scp, sftp_ls, sftp_mkdir, sftp_rm,
}
use agmux.CommandLine.{Destination, destination, no_user, empty_host, parse_destination}
use agmux.CommandLine.Requests.{
  UsageError, path_required, unknown_command, destination_required, no_current_user, host_empty,
  name_required, command_required, id_required, two_paths_required, subcommand_required,
  ForwardOptions, ForwardCommand, forward_request, forward_usage, handle_forward, CopyCommand,
  copy_request, copy_usage, handle_copy,
}

-- Nanoseconds: rpcTimeout, connectRPCTimeout and socketDeadlineBuffer.
abbrev pub rpc_timeout : ℤ
rpc_timeout = pos 10000000000

abbrev pub connect_rpc_timeout : ℤ
connect_rpc_timeout = pos 30000000000

-- A request waits for its answer; a stream is read until its end, for ever without a deadline.
pub data Plan : Type 0 where
  usage : UsageError → Plan
  sends : Request → ℤ → Plan
  streams : Request → Option ℤ → Plan

-- time.Duration(secs)*time.Second + socketDeadlineBuffer
unfoldable pub buffered : ℤ → ℤ
unfolding int64
buffered (pos n) = int64 (n * 1000000000 + 30000000000)
buffered (negsuc n) = negsuc n

-- The deadlines of sendRequestWithCmdTimeout and sendStreamRequest
unfoldable pub cmd_deadline : ℤ → ℤ
unfolding buffered
cmd_deadline secs = if positive secs then buffered secs else rpc_timeout

unfoldable pub stream_deadline : ℤ → Option ℤ
unfolding buffered
stream_deadline secs = if positive secs then some (buffered secs) else none

pub record ConnectOptions : Type 0 where
  pub name : String
  pub port : ℤ
  pub key_path : String
  pub password : String

pub record ExecOptions : Type 0 where
  pub name : String
  pub timeout : ℤ
  pub sudo : SudoOptions
  pub stream : Bool

module _ (current : Option Bytes) (text : Bytes → String) where
  -- handleConnect
  unfoldable pub connect_to : ConnectOptions → Destination → Plan
  connect_to o no_user = usage no_current_user
  connect_to o empty_host = usage host_empty
  connect_to o (destination user host) =
      sends
        (connect (record {
          name = o.name;
          user = text user;
          host = text host;
          port = o.port;
          password = o.password;
          key_path = o.key_path;
        }))
        connect_rpc_timeout

  unfoldable pub handle_connect_args : ConnectOptions → List Bytes → Plan
  unfolding connect_to parse_destination
  handle_connect_args o [] = usage destination_required
  handle_connect_args o (dest ∷ []) = connect_to o (parse_destination current dest)
  handle_connect_args o (dest ∷ other ∷ args) = usage destination_required

  -- handleDestination connects first.
  unfoldable pub handle_destination : ConnectOptions → Bytes → Plan
  unfolding connect_to parse_destination
  handle_destination o dest = connect_to o (parse_destination current dest)

  -- handleUse
  unfoldable pub handle_use_args : String → String → List Bytes → Plan
  handle_use_args password key_path [] = usage name_required
  handle_use_args password key_path (name ∷ args) =
      sends (use_session (record { name = text name; password = password; key_path = key_path }))
        connect_rpc_timeout

  -- handleKill: the name is an option or the first argument.
  unfoldable pub handle_kill_args : String → List Bytes → Plan
  handle_kill_args name [] = sends (kill name) rpc_timeout
  handle_kill_args name (arg ∷ args) =
      sends (kill (if str_eq name "" then text arg else name)) rpc_timeout

  -- handleForwardClose
  unfoldable pub handle_forward_close_args : List Bytes → Plan
  handle_forward_close_args [] = usage id_required
  handle_forward_close_args (id ∷ args) = sends (forward_close (text id)) rpc_timeout

  -- handleSCP
  unfoldable pub copy_plan : CopyCommand → Plan
  copy_plan (copy_usage e) = usage e
  copy_plan (copy_request c) =
      sends
        (scp (record {
          name = text c.session;
          source = c.source;
          dest = c.dest;
          is_upload = c.is_upload;
        }))
        rpc_timeout

  unfoldable pub handle_scp_args : List Bytes → Plan
  unfolding copy_plan handle_copy
  handle_scp_args [] = usage two_paths_required
  handle_scp_args (source ∷ []) = usage two_paths_required
  handle_scp_args (source ∷ dest ∷ args) = copy_plan (handle_copy source dest)

-- handleLocal
unfoldable pub handle_local_args : String → Plan
handle_local_args name = sends (local_session name) rpc_timeout

-- The end of handleExec and of handleRun
unfoldable pub exec_plan : Bool → ExecParams → Plan
unfolding stream_deadline cmd_deadline
exec_plan stream p =
    if stream
    then streams (exec_stream p) (stream_deadline p.timeout)
    else sends (exec p) (cmd_deadline p.timeout)

unfoldable pub run_plan : Bool → LocalExecParams → Plan
unfolding stream_deadline cmd_deadline
run_plan stream p =
    if stream
    then streams (local_exec_stream p) (stream_deadline p.timeout)
    else sends (local_exec p) (cmd_deadline p.timeout)

-- handleExec
unfoldable pub handle_exec_args : ExecOptions → List Bytes → Plan
unfolding exec_plan join_command_args
handle_exec_args o [] = usage command_required
handle_exec_args o (arg ∷ args) = exec_plan o.stream (record {
  name = o.name;
  command = join_command_args (arg ∷ args);
  timeout = o.timeout;
  sudo = o.sudo;
})

-- handleRun has no session.
unfoldable pub handle_run_args : ExecOptions → List Bytes → Plan
unfolding run_plan join_command_args
handle_run_args o [] = usage command_required
handle_run_args o (arg ∷ args) =
    run_plan o.stream
      (record { command = join_command_args (arg ∷ args); timeout = o.timeout; sudo = o.sudo })

-- handleForward
unfoldable pub forward_plan : ForwardCommand → Plan
forward_plan (forward_usage e) = usage e
forward_plan (forward_request p) = sends (forward p) rpc_timeout

-- handleSFTP: ls without a path lists the directory of the session.
abbrev is_ls : Bytes → Bool
is_ls command = bytes_eq command (codes "ls")

unfoldable pub sftp_plan : String → Bytes → Bytes → Plan
unfolding bytes_eq
sftp_plan name command path =
    if bytes_eq command (codes "ls")
    then sends (sftp_ls (record { name = name; command = codes "ls"; path = path })) rpc_timeout
    else if bytes_eq command (codes "mkdir")
    then sends (sftp_mkdir (record { name = name; command = codes "mkdir"; path = path }))
        rpc_timeout
    else if bytes_eq command (codes "rm")
    then sends (sftp_rm (record { name = name; command = codes "rm"; path = path })) rpc_timeout
    else usage unknown_command

unfoldable pub sftp_at : String → Bytes → Bytes → Plan
unfolding sftp_plan bytes_eq
sftp_at name command [] =
    if is_ls command then sftp_plan name command (codes ".") else usage path_required
sftp_at name command (c ∷ path) = sftp_plan name command (c ∷ path)

unfoldable pub handle_sftp_args : String → List Bytes → Plan
unfolding sftp_at
handle_sftp_args name [] = usage subcommand_required
handle_sftp_args name (command ∷ []) = sftp_at name command []
handle_sftp_args name (command ∷ path ∷ args) = sftp_at name command path

-- After the answer to its connect, which has the name of the session, it ends or
-- goes on with an exec there; the password is that of sudo, too.
unfoldable pub destination_exec : Bytes → ExecOptions → String → List Bytes → Option Plan
unfolding handle_exec_args
destination_exec password o session [] = none
destination_exec password o session (arg ∷ args) = some (
    handle_exec_args (record o { name = session; sudo = record o.sudo { password = password } })
      (arg ∷ args))

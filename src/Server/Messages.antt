-- ===== src/Server/Messages.antt =====
-- internal/protocol/msg.go and types.go: the requests, their numbers and their parameters.
use agmux.Base.{ℕ, ℤ, String, Option, none, some, Bool, ◌==◌, if◌then◌else◌, Bytes}
use agmux.Exec.{SudoOptions}

pub record ConnectParams : Type 0 where
  pub name : String
  pub user : String
  pub host : String
  pub port : ℤ
  pub password : String
  pub key_path : String

pub record UseParams : Type 0 where
  pub name : String
  pub password : String
  pub key_path : String

pub record ExecParams : Type 0 where
  pub name : String
  pub command : Bytes
  pub timeout : ℤ
  pub sudo : SudoOptions

pub record LocalExecParams : Type 0 where
  pub command : Bytes
  pub timeout : ℤ
  pub sudo : SudoOptions

pub record ForwardParams : Type 0 where
  pub name : String
  pub forward_type : String
  pub local_port : ℤ
  pub remote_port : ℤ
  pub bind_addr : String

pub record ScpParams : Type 0 where
  pub name : String
  pub source : Bytes
  pub dest : Bytes
  pub is_upload : Bool

pub record SftpParams : Type 0 where
  pub name : String
  pub command : Bytes
  pub path : Bytes

-- protocol.StreamChunk and StreamEnd; of the error of the end only whether there is one.
pub record Chunk : Type 0 where
  pub stream : String
  pub bytes : Bytes

pub record StreamEnd : Type 0 where
  pub exit_code : ℤ
  pub failed : Bool

-- A request with its decoded parameters.
pub data Request : Type 0 where
  connect : ConnectParams → Request
  local_session kill : String → Request
  exec exec_stream : ExecParams → Request
  local_exec local_exec_stream : LocalExecParams → Request
  list forwards ping stop : Request
  use_session : UseParams → Request
  forward : ForwardParams → Request
  forward_close : String → Request
  scp : ScpParams → Request
  sftp_ls sftp_mkdir sftp_rm : SftpParams → Request

-- The Msg constants of the requests.
unfoldable pub msg_type : Request → ℕ
msg_type (connect p) = 1
msg_type (local_session n) = 2
msg_type (kill n) = 4
msg_type (exec p) = 6
msg_type (local_exec p) = 7
msg_type list = 8
msg_type (use_session p) = 9
msg_type (forward p) = 10
msg_type forwards = 11
msg_type (forward_close id) = 12
msg_type (scp p) = 13
msg_type (sftp_ls p) = 14
msg_type (sftp_mkdir p) = 15
msg_type (sftp_rm p) = 16
msg_type ping = 18
msg_type stop = 19
msg_type (exec_stream p) = 20
msg_type (local_exec_stream p) = 21

abbrev pub msg_result : ℕ
msg_result = 100

abbrev pub msg_error : ℕ
msg_error = 101

abbrev pub msg_pong : ℕ
msg_pong = 102

abbrev pub msg_stream_chunk : ℕ
msg_stream_chunk = 103

abbrev pub msg_stream_end : ℕ
msg_stream_end = 104

-- DecodePayload for each type of parameters: encoding/json, of which only this is used.
pub record Codec : Type 0 where
  pub connect_params : Bytes → Option ConnectParams
  pub name_params : Bytes → Option String
  pub exec_params : Bytes → Option ExecParams
  pub local_exec_params : Bytes → Option LocalExecParams
  pub use_params : Bytes → Option UseParams
  pub forward_params : Bytes → Option ForwardParams
  pub forward_close_params : Bytes → Option String
  pub scp_params : Bytes → Option ScpParams
  pub sftp_params : Bytes → Option SftpParams

pub data Decoded : Type 0 where
  request : Request → Decoded
  invalid_params invalid_stream_params : Decoded
  unknown_type : ℕ → Decoded

abbrev pub decoded {ℓ} : {A : Type ℓ} → (A → Request) → Option A → Decoded
decoded f none = invalid_params
decoded f (some a) = request (f a)

abbrev decoded_stream {ℓ} : {A : Type ℓ} → (A → Request) → Option A → Decoded
decoded_stream f none = invalid_stream_params
decoded_stream f (some a) = request (f a)

-- The switch of dispatch on the message type, and the two types that handleConn takes before it.
unfoldable pub decode : Codec → ℕ → Bytes → Decoded
decode c t p =
    if t == 20
    then decoded_stream exec_stream (c.exec_params p)
    else if t == 21
    then decoded_stream local_exec_stream (c.local_exec_params p)
    else if t == 18
    then request ping
    else if t == 1
    then decoded connect (c.connect_params p)
    else if t == 2
    then decoded local_session (c.name_params p)
    else if t == 4
    then decoded kill (c.name_params p)
    else if t == 6
    then decoded exec (c.exec_params p)
    else if t == 7
    then decoded local_exec (c.local_exec_params p)
    else if t == 8
    then request list
    else if t == 9
    then decoded use_session (c.use_params p)
    else if t == 10
    then decoded forward (c.forward_params p)
    else if t == 11
    then request forwards
    else if t == 12
    then decoded forward_close (c.forward_close_params p)
    else if t == 13
    then decoded scp (c.scp_params p)
    else if t == 14
    then decoded sftp_ls (c.sftp_params p)
    else if t == 15
    then decoded sftp_mkdir (c.sftp_params p)
    else if t == 16
    then decoded sftp_rm (c.sftp_params p)
    else if t == 19
    then request stop
    else unknown_type t

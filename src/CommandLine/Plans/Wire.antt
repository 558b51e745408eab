-- ===== src/CommandLine/Plans/Wire.antt =====
-- What the daemon makes of the requests that the client sends.
use agmux.Base.{◌≡◌, ◌≤◌, ◌<◌, ◌++◌, length, refl, String, some, [], Bytes, arith}
use agmux.Imsg.{new_imsg, max_payload_size, read_message, ok}
use agmux.Imsg.Encode.{frame, read_message-frame}
use agmux.Server.Messages.{
  ConnectParams, UseParams, ExecParams, LocalExecParams, ForwardParams, ScpParams, SftpParams,
  Request, connect, local_session, kill, exec, exec_stream, local_exec, local_exec_stream, list,
  forwards, ping, stop, use_session, forward, forward_close, scp, sftp_ls, sftp_mkdir, sftp_rm,
  msg_type, Codec, request, decode,
}

-- protocol.EncodePayload: json.Marshal of each type of parameters.
pub record Marshal : Type 0 where
  pub connect_params : ConnectParams → Bytes
  pub name_params : String → Bytes
  pub exec_params : ExecParams → Bytes
  pub local_exec_params : LocalExecParams → Bytes
  pub use_params : UseParams → Bytes
  pub forward_params : ForwardParams → Bytes
  pub forward_close_params : String → Bytes
  pub scp_params : ScpParams → Bytes
  pub sftp_params : SftpParams → Bytes

-- The payload that sendRequestWithTimeout and sendStreamRequest write: empty without parameters.
unfoldable pub payload_of : Marshal → Request → Bytes
payload_of e (connect p) = e.connect_params p
payload_of e (local_session name) = e.name_params name
payload_of e (kill name) = e.name_params name
payload_of e (exec p) = e.exec_params p
payload_of e (exec_stream p) = e.exec_params p
payload_of e (local_exec p) = e.local_exec_params p
payload_of e (local_exec_stream p) = e.local_exec_params p
payload_of e list = []
payload_of e forwards = []
payload_of e ping = []
payload_of e stop = []
payload_of e (use_session p) = e.use_params p
payload_of e (forward p) = e.forward_params p
payload_of e (forward_close id) = e.forward_close_params id
payload_of e (scp p) = e.scp_params p
payload_of e (sftp_ls p) = e.sftp_params p
payload_of e (sftp_mkdir p) = e.sftp_params p
payload_of e (sftp_rm p) = e.sftp_params p

-- json.Unmarshal reads what json.Marshal wrote, as it does if the texts of the parameters are UTF-8.
abbrev pub Survives : Codec → Marshal → Request → Type 0
Survives c e (connect p) = c.connect_params (e.connect_params p) ≡ some p
Survives c e (local_session name) = c.name_params (e.name_params name) ≡ some name
Survives c e (kill name) = c.name_params (e.name_params name) ≡ some name
Survives c e (exec p) = c.exec_params (e.exec_params p) ≡ some p
Survives c e (exec_stream p) = c.exec_params (e.exec_params p) ≡ some p
Survives c e (local_exec p) = c.local_exec_params (e.local_exec_params p) ≡ some p
Survives c e (local_exec_stream p) = c.local_exec_params (e.local_exec_params p) ≡ some p
Survives c e list = Unit
Survives c e forwards = Unit
Survives c e ping = Unit
Survives c e stop = Unit
Survives c e (use_session p) = c.use_params (e.use_params p) ≡ some p
Survives c e (forward p) = c.forward_params (e.forward_params p) ≡ some p
Survives c e (forward_close id) = c.forward_close_params (e.forward_close_params id) ≡ some id
Survives c e (scp p) = c.scp_params (e.scp_params p) ≡ some p
Survives c e (sftp_ls p) = c.sftp_params (e.sftp_params p) ≡ some p
Survives c e (sftp_mkdir p) = c.sftp_params (e.sftp_params p) ≡ some p
Survives c e (sftp_rm p) = c.sftp_params (e.sftp_params p) ≡ some p

decode-payload_of :
    (c : Codec) (e : Marshal) (r : Request)
    → Survives c e r
    → decode c (msg_type r) (payload_of e r) ≡ request r
unfolding decode msg_type payload_of
decode-payload_of c e (connect p) u = rw u refl
decode-payload_of c e (local_session name) u = rw u refl
decode-payload_of c e (kill name) u = rw u refl
decode-payload_of c e (exec p) u = rw u refl
decode-payload_of c e (exec_stream p) u = rw u refl
decode-payload_of c e (local_exec p) u = rw u refl
decode-payload_of c e (local_exec_stream p) u = rw u refl
decode-payload_of c e list u = refl
decode-payload_of c e forwards u = refl
decode-payload_of c e ping u = refl
decode-payload_of c e stop u = refl
decode-payload_of c e (use_session p) u = rw u refl
decode-payload_of c e (forward p) u = rw u refl
decode-payload_of c e (forward_close id) u = rw u refl
decode-payload_of c e (scp p) u = rw u refl
decode-payload_of c e (sftp_ls p) u = rw u refl
decode-payload_of c e (sftp_mkdir p) u = rw u refl
decode-payload_of c e (sftp_rm p) u = rw u refl

msg_type-small : (r : Request) → msg_type r < 65536
unfolding msg_type
msg_type-small (connect p) = omega arith
msg_type-small (local_session name) = omega arith
msg_type-small (kill name) = omega arith
msg_type-small (exec p) = omega arith
msg_type-small (exec_stream p) = omega arith
msg_type-small (local_exec p) = omega arith
msg_type-small (local_exec_stream p) = omega arith
msg_type-small list = omega arith
msg_type-small forwards = omega arith
msg_type-small ping = omega arith
msg_type-small stop = omega arith
msg_type-small (use_session p) = omega arith
msg_type-small (forward p) = omega arith
msg_type-small (forward_close id) = omega arith
msg_type-small (scp p) = omega arith
msg_type-small (sftp_ls p) = omega arith
msg_type-small (sftp_mkdir p) = omega arith
msg_type-small (sftp_rm p) = omega arith

-- Every request that the client writes is read from the wire as one frame, whatever follows it, and
-- decoded by the daemon as the request that was sent, if its parameters survive their encoding and
-- fit into a frame.
pub decode-frame :
    (c : Codec) (e : Marshal) (r : Request) (rest : Bytes)
    → Survives c e r
    → length (payload_of e r) ≤ max_payload_size
    → let m = new_imsg (msg_type r) (payload_of e r) in
      (read_message (frame m ++ rest) ≡ ok m rest) × (decode c m.msg_type m.payload ≡ request r)
unfolding new_imsg
decode-frame c e r rest u fits = (
  read_message-frame (new_imsg (msg_type r) (payload_of e r)) rest refl (msg_type-small r) fits,
  decode-payload_of c e r u,
)

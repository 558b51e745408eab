-- ===== src/Server/Dispatch.antt =====
-- internal/server/server.go: transfers, dispatch, and the answer that handleConn writes.
use agmux.Base.{
  String, Option, none, some, Bool, true, false, not, List, [], ◌∷◌, map, ◌++◌, if◌then◌else◌, ltb,
  length, Bytes, codes,
}
use agmux.Imsg.{Imsg, new_imsg, max_payload_size}
use agmux.Exec.Executor.{StreamReply, streamed, stream_session_error, exec_stream, stream_exit_code}
use agmux.Exec.Stream.{stream}
use agmux.Exec.{Transport, Err}
use agmux.Server.{Server, Entry, AuditResult, success, error, log, log_exec, exec_audit_result}
use agmux.Server.Messages.{
  ExecParams, LocalExecParams, ScpParams, SftpParams, Codec, Decoded, StreamEnd, request, decode,
  msg_stream_chunk, Chunk, msg_result, msg_error, msg_pong, msg_stream_end, Request,
}
use agmux.Server.Messages
use agmux.Server.Handlers
use agmux.Server.Handlers.{
  World, Transferred, transfer_error, transferred, Reply, Failure, failure, handle_connect,
  handle_local, handle_kill, handle_exec, handle_local_exec, handle_list, handle_use,
  handle_forward, handle_forwards, handle_forward_close,
}

-- logTransferAudit
unfoldable pub transfer_audit_result : Transferred → AuditResult
transfer_audit_result transfer_error = error
transfer_audit_result (transferred done message bytes) = if not done then error else success

unfoldable pub transfer_reply : Transferred → Reply
transfer_reply transfer_error = failure Handlers.transfer_failed
transfer_reply (transferred done message bytes) = Handlers.transfer_result done message bytes

-- MsgSCP
unfoldable pub handle_scp : ScpParams → World → Server → Server × Reply
unfolding transfer_audit_result transfer_reply
handle_scp p w s = (
  log
      (record {
        session = p.name;
        action = "scp";
        command = p.source ++ (codes " -> " ++ p.dest);
        result = transfer_audit_result w.transfer;
      })
      s,
  transfer_reply w.transfer,
)

-- MsgSFTPLs, MsgSFTPMkdir and MsgSFTPRm
unfoldable pub sftp_entry : String → SftpParams → AuditResult → Entry
sftp_entry action p r = record { session = p.name; action = action; command = p.path; result = r }

unfoldable pub ls_reply : SftpParams → Option (List Bytes) → Server → Server × Reply
ls_reply p none s = (log (sftp_entry "sftp_ls" p error) s, failure Handlers.transfer_failed)
ls_reply p (some l) s = (log (sftp_entry "sftp_ls" p success) s, Handlers.names l)

unfoldable pub done_reply : String → SftpParams → Reply → Bool → Server → Server × Reply
done_reply action p r true s = (log (sftp_entry action p success) s, r)
done_reply action p r false s =
    (log (sftp_entry action p error) s, failure Handlers.transfer_failed)

-- dispatch, on a request whose parameters are decoded; handleConn takes the streaming ones first.
unfoldable pub dispatch : Request → World → Server → Server × Reply
unfolding handle_connect handle_local handle_kill handle_exec handle_local_exec handle_list
    handle_use handle_forward handle_forwards handle_forward_close handle_scp ls_reply done_reply
dispatch Messages.ping w s = (s, Handlers.pong)
dispatch (Messages.connect p) w s = handle_connect p w s
dispatch (Messages.local_session name) w s = handle_local name w s
dispatch (Messages.kill name) w s = handle_kill name s
dispatch (Messages.exec p) w s = handle_exec p w s
dispatch (Messages.local_exec p) w s = handle_local_exec p w s
dispatch Messages.list w s = handle_list s
dispatch (Messages.use_session p) w s = handle_use p w s
dispatch (Messages.forward p) w s = handle_forward p w s
dispatch Messages.forwards w s = handle_forwards s
dispatch (Messages.forward_close id) w s = handle_forward_close id s
dispatch (Messages.scp p) w s = handle_scp p w s
dispatch (Messages.sftp_ls p) w s = ls_reply p w.names s
dispatch (Messages.sftp_mkdir p) w s = done_reply "sftp_mkdir" p Handlers.created w.sftp_done s
dispatch (Messages.sftp_rm p) w s = done_reply "sftp_rm" p Handlers.removed w.sftp_done s
dispatch Messages.stop w s = (s, Handlers.stopping)
dispatch (Messages.exec_stream p) w s = (s, failure (Handlers.unknown_type 20))
dispatch (Messages.local_exec_stream p) w s = (s, failure (Handlers.unknown_type 21))

-- What sendStreamEnd is given.
abbrev has_error : Option Err → Bool
has_error none = false
has_error (some e) = true

unfoldable pub stream_end : StreamReply → StreamEnd
unfolding stream_exit_code
stream_end (streamed r) = record { exit_code = r.exit_code; failed = has_error r.err }
stream_end (stream_session_error t) = record {
  exit_code = stream_exit_code (stream_session_error t);
  failed = true;
}

unfoldable pub stream_audit : StreamEnd → AuditResult
stream_audit e =
    if e.failed
    then error
    else exec_audit_result none
        (some (record { stdout = []; stderr = []; exit_code = e.exit_code }))

-- handleExecStream and handleLocalExecStream, up to what is written to the connection.
unfoldable pub handle_exec_stream : ExecParams → World → Server → Server × StreamReply
unfolding stream_end stream_audit
handle_exec_stream p w s =
    let (m, r) =
      exec_stream p.name p.command p.timeout p.sudo w.polls w.new_session w.timer_first w.process
        s.manager in
    (log_exec p.name p.command (stream_audit (stream_end r)) (record s { manager = m }), r)

unfoldable pub handle_local_exec_stream : LocalExecParams → World → Server → Server × StreamReply
unfolding stream_end stream_audit
handle_local_exec_stream p w s =
    let r =
      streamed (stream Transport.local none p.sudo.enabled p.timeout w.timer_first w.process) in
    (log_exec "" p.command (stream_audit (stream_end r)) s, r)

-- json.Marshal of what a handler answers and of an error: encoding/json.
pub record Encoder : Type 0 where
  pub reply : Reply → Bytes
  pub error_payload : Failure → Bytes
  pub too_large_payload : Bytes
  pub chunk : Chunk → Bytes
  pub stream_end : StreamEnd → Bytes

-- The frame of a reply.
unfoldable pub response : Encoder → Reply → Imsg
unfolding new_imsg
response e (failure f) = new_imsg msg_error (e.error_payload f)
response e Handlers.pong = new_imsg msg_pong (e.reply Handlers.pong)
response e r = new_imsg msg_result (e.reply r)

-- The guard against a response that is too large.
unfoldable pub guarded : Encoder → Imsg → Imsg
unfolding new_imsg
guarded e m =
    if ltb max_payload_size (length m.payload) then new_imsg msg_error e.too_large_payload else m

-- The answer of dispatch to a message, and that of handleConn to a streaming one it cannot decode.
unfoldable pub answer : Encoder → Decoded → World → Server → Server × Imsg
unfolding response guarded dispatch new_imsg
answer e (request r) w s = let (s', reply) = dispatch r w s in (s', guarded e (response e reply))
answer e Messages.invalid_params w s = (s, guarded e (response e (failure Handlers.invalid_params)))
answer e (Messages.unknown_type t) w s =
    (s, guarded e (response e (failure (Handlers.unknown_type t))))
answer e Messages.invalid_stream_params w s =
    (s, new_imsg msg_error (e.error_payload Handlers.invalid_stream_params))

-- The writes of the chunkWriters: none, if no session was found.
unfoldable pub written : StreamReply → List Chunk → List Chunk
written (streamed r) chunks = chunks
written (stream_session_error t) chunks = []

unfoldable pub chunk_frames : Encoder → List Chunk → List Imsg
unfolding new_imsg
chunk_frames e chunks = map (λ (c : Chunk). new_imsg msg_stream_chunk (e.chunk c)) chunks

unfoldable pub stream_frames : Encoder → List Chunk → StreamReply → List Imsg
unfolding new_imsg stream_end written chunk_frames
stream_frames e chunks r =
    chunk_frames e (written r chunks) ++ new_imsg msg_stream_end (e.stream_end (stream_end r)) ∷ []

-- One round of handleConn: the frames written for a frame read. `chunks` is what the process makes
-- the two writers write, in the order in which they take their mutex.
unfoldable pub serve : Encoder → Decoded → List Chunk → World → Server → Server × List Imsg
unfolding handle_exec_stream handle_local_exec_stream stream_frames
serve e (request (Messages.exec_stream p)) chunks w s =
    let (s', r) = handle_exec_stream p w s in (s', stream_frames e chunks r)
serve e (request (Messages.local_exec_stream p)) chunks w s =
    let (s', r) = handle_local_exec_stream p w s in (s', stream_frames e chunks r)
serve e d chunks w s = let (s', m) = answer e d w s in (s', m ∷ [])

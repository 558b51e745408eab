-- ===== src/Client.antt =====
-- cmd/gssh/client.go: what the client makes of the frames that it reads. What its socket delivers is a
-- list of bytes, and an expired deadline is the end of it.
pub mod Receive
pub mod Dial
use agmux.Base.{
  ℕ, zero, suc, ℤ, pos, String, Option, none, some, Bool, true, false, ◌==◌, str_eq, int_eq, List,
  [], ◌∷◌, ◌++◌, if◌then◌else◌, Bytes, length,
}
use agmux.Imsg.{Imsg, ReadResult, ReadError, ok, err, read_message}
use agmux.Server.Messages.{Chunk, StreamEnd, msg_error, msg_stream_chunk, msg_stream_end}

-- json.Unmarshal of the payloads that the client decodes: encoding/json.
pub record Decoder : Type 0 where
  pub error_message : Bytes → Option Bytes
  pub chunk : Bytes → Option Chunk
  pub stream_end : Bytes → Option StreamEnd

-- What sendRequest returns, once the request is sent.
pub data Response : Type 0 where
  payload rpc_error : Bytes → Response
  unparseable : Response
  no_response : ReadError → Response

unfoldable pub error_response : Option Bytes → Response
error_response none = unparseable
error_response (some message) = rpc_error message

-- The end of sendRequestWithTimeout
unfoldable pub response_of : Decoder → ReadResult → Response
unfolding error_response
response_of d (err e) = no_response e
response_of d (ok m rest) =
    if m.msg_type == msg_error
    then error_response (d.error_message m.payload)
    else payload m.payload

pub record Screen : Type 0 where
  pub stdout : Bytes
  pub stderr : Bytes

unfoldable pub show_chunk : Chunk → Screen → Screen
show_chunk c s =
    if str_eq c.stream "stderr"
    then record s { stderr = s.stderr ++ c.bytes }
    else record s { stdout = s.stdout ++ c.bytes }

-- How sendStreamRequest ends; `exits` is os.Exit. `out_of_fuel` is not reached.
pub data Finished : Type 0 where
  done run_failed bad_chunk bad_end stream_unparseable out_of_fuel : Finished
  exits : ℤ → Finished
  stream_error : Bytes → Finished
  read_failed : ReadError → Finished
  unexpected : ℕ → Finished

unfoldable pub finish_stream : Option StreamEnd → Finished
finish_stream none = bad_end
finish_stream (some e) =
    if e.failed then run_failed else if int_eq e.exit_code (pos 0) then done else exits e.exit_code

unfoldable pub stream_failed : Option Bytes → Finished
stream_failed none = stream_unparseable
stream_failed (some message) = stream_error message

-- What one frame does to the loop.
pub data Step : Type 0 where
  shows : Chunk → Step
  stops : Finished → Step

unfoldable pub chunk_step : Option Chunk → Step
chunk_step none = stops bad_chunk
chunk_step (some c) = shows c

unfoldable pub stream_step : Decoder → Imsg → Step
unfolding chunk_step finish_stream stream_failed
stream_step d m =
    if m.msg_type == msg_stream_chunk
    then chunk_step (d.chunk m.payload)
    else if m.msg_type == msg_stream_end
    then stops (finish_stream (d.stream_end m.payload))
    else if m.msg_type == msg_error
    then stops (stream_failed (d.error_message m.payload))
    else stops (unexpected m.msg_type)

-- A round of the loop of sendStreamRequest; `next` is the rest of the loop.
unfoldable pub stream_act :
    (Bytes → Screen → Screen × Finished) → Step → Bytes → Screen → Screen × Finished
stream_act next (shows c) rest s = next rest (show_chunk c s)
stream_act next (stops f) rest s = (s, f)

unfoldable pub stream_read :
    Decoder → (Bytes → Screen → Screen × Finished) → ReadResult → Screen → Screen × Finished
unfolding stream_act
stream_read d next (err e) s = (s, read_failed e)
stream_read d next (ok m rest) s = stream_act next (stream_step d m) rest s

-- The loop, on fuel: each round reads a header at least.
unfoldable pub stream_loop : Decoder → ℕ → Bytes → Screen → Screen × Finished
unfolding stream_read
stream_loop d zero wire s = (s, out_of_fuel)
stream_loop d (suc n) wire s = stream_read d (stream_loop d n) (read_message wire) s

unfoldable pub receive_stream : Decoder → Bytes → Screen → Screen × Finished
unfolding stream_loop
receive_stream d wire s = stream_loop d (suc (length wire)) wire s

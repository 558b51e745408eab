-- ===== src/Client/Receive.antt =====
-- The client on what the server writes.
use agmux.Base.{
  ◌≤◌, ◌≡◌, some, Bool, true, false, str_eq, List, [], ◌∷◌, ◌++◌, if◌then◌else◌, Bytes, length,
}
use agmux.Imsg.{Imsg, max_payload_size}
use agmux.Imsg.Encode.{frame}
use agmux.Server.{Server}
use agmux.Server.Messages.{Chunk, StreamEnd, Decoded, msg_pong, msg_result}
use agmux.Server.Messages
use agmux.Server.Handlers.{Reply, Failure, failure}
use agmux.Server.Handlers
use agmux.Server.Dispatch.{Encoder, stream_end}
use agmux.Client.{Decoder, Screen, error_response, Response}

unfoldable pub wire : List Imsg → Bytes
wire [] = []
wire (m ∷ ms) = frame m ++ wire ms

-- What the chunks of one stream hold, `errors` for stderr.
unfoldable pub output : Bool → List Chunk → Bytes
output errors [] = []
output true (c ∷ cs) =
    let rest = output true cs in if str_eq c.stream "stderr" then c.bytes ++ rest else rest
output false (c ∷ cs) =
    let rest = output false cs in if str_eq c.stream "stderr" then rest else c.bytes ++ rest

abbrev pub shown : List Chunk → Screen → Screen
shown cs s = record { stdout = s.stdout ++ output false cs; stderr = s.stderr ++ output true cs }

module _ (d : Decoder) (e : Encoder) where
  -- The client reads back what the server encoded, and it fits a frame.
  abbrev pub Sent : Chunk → Type 0
  Sent c = (d.chunk (e.chunk c) ≡ some c) × (length (e.chunk c) ≤ max_payload_size)

  abbrev pub SentEnd : StreamEnd → Type 0
  SentEnd x =
      (d.stream_end (e.stream_end x) ≡ some x) × (length (e.stream_end x) ≤ max_payload_size)

-- What a reply is to the client, if its frame is not too large.
unfoldable pub reply_response : Decoder → Encoder → Reply → Response
reply_response d e (failure f) = error_response (d.error_message (e.error_payload f))
reply_response d e r = Response.payload (e.reply r)

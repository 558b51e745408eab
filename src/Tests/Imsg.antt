-- ===== src/Tests/Imsg.antt =====
-- Frames at concrete messages.
use agmux.Base.{◌≡◌, ◌≤◌, ◌++◌, ◌-◌, refl, [], ◌∷◌, none, codes, length, arith}
use agmux.Imsg.{
  Imsg, Writer, read_message, write_message, ok, err, version_number, max_payload_size,
  short_payload, unsupported_version, read_full, finish_read, uint16, uint32,
}
use agmux.Imsg.Encode.{frame, write_message-frame}
use agmux.Imsg.Decode.{read_message_sound}

abbrev ping : Imsg
ping = record { version = 1; msg_type = 18; payload = codes "{}" }

frame-ping : frame ping ≡ 1 ∷ 0 ∷ 18 ∷ 0 ∷ 0 ∷ 0 ∷ 2 ∷ b'{' ∷ b'}' ∷ []
unfolding frame
frame-ping = refl

short_read : read_message (1 ∷ 0 ∷ 18 ∷ 0 ∷ 0 ∷ 0 ∷ 2 ∷ b'{' ∷ []) ≡ err short_payload
unfolding read_message read_full uint16 uint32 finish_read
short_read = refl

old_version : read_message (0 ∷ 0 ∷ 18 ∷ 0 ∷ 0 ∷ 0 ∷ 0 ∷ []) ≡ err (unsupported_version 0)
unfolding read_message
old_version = refl

abbrev pipe : Writer
pipe = record { out = []; room = 64 }

write_message-frame_example :
    write_message pipe ping
    ≡ (record { out = [] ++ frame ping; room = 64 - length (frame ping) }, none)
write_message-frame_example =
    write_message-frame pipe ping (omega arith) (unfold frame in omega arith)

accepted : read_message (1 ∷ 0 ∷ 18 ∷ 0 ∷ 0 ∷ 0 ∷ 2 ∷ b'{' ∷ b'}' ∷ 7 ∷ []) ≡ ok ping (7 ∷ [])
unfolding read_message read_full uint16 uint32 finish_read
accepted = refl

read_message_sound_example :
    (1 ∷ 0 ∷ 18 ∷ 0 ∷ 0 ∷ 0 ∷ 2 ∷ b'{' ∷ b'}' ∷ 7 ∷ [] ≡ frame ping ++ 7 ∷ [])
    × (ping.version ≡ version_number)
    × (length ping.payload ≤ max_payload_size)
read_message_sound_example =
    read_message_sound (1 ∷ 0 ∷ 18 ∷ 0 ∷ 0 ∷ 0 ∷ 2 ∷ b'{' ∷ b'}' ∷ 7 ∷ []) (omega arith) accepted

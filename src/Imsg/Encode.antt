-- ===== src/Imsg/Encode.antt =====
-- WriteMessage writes a frame that ReadMessage reads back.
use agmux.Base.{
  ℕ, zero, suc, ◌+◌, ◌-◌, ◌/◌, ◌%◌, ◌^◌, ◌≤◌, ◌<◌, ◌≡◌, refl, ap, ◌∙◌, true, false, inl, inr, [],
  ◌∷◌, ◌++◌, append_assoc, append-nil, none, some, Bytes, length, length-append, arith, ltb,
  Bool-cases,
}
use agmux.Imsg.{
  Imsg, Writer, max_payload_size, header_size, version_number, ok, read_full, uint16, uint32,
  read_message, finish_read, write_some, write, write_body, write_message, header_of,
}

-- The bytes of a frame.
unfoldable pub frame : Imsg → Bytes
unfolding header_of
frame m = header_of m ++ m.payload

read_full-append : (p rest : Bytes) → read_full (length p) (p ++ rest) ≡ some (p, rest)
unfolding read_full
read_full-append [] rest = refl
read_full-append (c ∷ p) rest = rw (read_full-append p rest, read_full)

uint16-put : (n : ℕ) → n < 65536 → uint16 (n / 256 % 256) (n % 256) ≡ n
unfolding uint16
uint16-put n h = omega arith

uint32-put :
    (n : ℕ)
    → n < 4294967296
    → uint32 (n / 16777216 % 256) (n / 65536 % 256) (n / 256 % 256) (n % 256) ≡ n
unfolding uint32
uint32-put n h = omega arith

-- Reading a frame gives the message back and leaves the bytes behind it unread.
pub read_message-frame :
    (m : Imsg) (rest : Bytes)
    → m.version ≡ version_number
    → m.msg_type < 65536
    → length m.payload ≤ max_payload_size
    → read_message (frame m ++ rest) ≡ ok m rest
unfolding frame read_message header_of finish_read
read_message-frame m rest v t h =
    let n = length m.payload in
    let small : n % 2 ^ 32 ≡ n = omega arith in
    let size = uint32-put n (omega arith) in
    let kind = uint16-put m.msg_type t in
    rw (v, small, size, kind, read_full-append m.payload rest) (ground arith)

write_some-all : (p : Bytes) (n : ℕ) → length p ≤ n → write_some p n ≡ p
unfolding write_some
write_some-all [] n h = refl
write_some-all (c ∷ p) zero h = absurd (omega arith)
write_some-all (c ∷ p) (suc n) h = ap (◌∷◌ c) (write_some-all p n (omega arith))

write-all :
    (w : Writer) (p : Bytes)
    → length p ≤ w.room
    → write w p ≡ (record { out = w.out ++ p; room = w.room - length p }, true)
unfolding write
write-all w p h = rw (write_some-all p w.room h) (ground arith)

length-header_of : (m : Imsg) → length (header_of m) ≡ header_size
unfolding header_of
length-header_of m = refl

length-frame : (m : Imsg) → length (frame m) ≡ header_size + length m.payload
unfolding frame
length-frame m = omega (arith, length-append (header_of m) m.payload, length-header_of m)

eq-nil_of_length : (p : Bytes) → length p ≡ 0 → p ≡ []
eq-nil_of_length [] h = refl
eq-nil_of_length (c ∷ p) h = absurd (omega arith)

write_body-all :
    (w : Writer) (m : Imsg)
    → length m.payload ≤ w.room
    → write_body m (w, true)
      ≡ (record { out = w.out ++ m.payload; room = w.room - length m.payload }, none)
unfolding write_body
write_body-all w m h = elim (Bool-cases (ltb 0 (length m.payload))) [
  | inl e ↦ rw e (rw (write-all w m.payload h) refl)
  | inr e ↦
      let none_left = eq-nil_of_length m.payload (ground arith) in
      rw (none_left, append-nil) (ground arith)
]

-- A payload within the limit is written as one frame, to a writer with room for it.
pub write_message-frame :
    (w : Writer) (m : Imsg)
    → length m.payload ≤ max_payload_size
    → length (frame m) ≤ w.room
    → write_message w m
      ≡ (record { out = w.out ++ frame m; room = w.room - length (frame m) }, none)
unfolding write_message frame
write_message-frame w m h fits =
    let size = length-frame m in
    let head = length-header_of m in
    let over : ltb max_payload_size (length m.payload) ≡ false = ground arith in
    rw over (
      ap (write_body m) (write-all w (header_of m) (omega arith))
      ∙ write_body-all (record { out = w.out ++ header_of m; room = w.room - length (header_of m) })
          m (omega arith)
      ∙ rw append_assoc (ground arith))

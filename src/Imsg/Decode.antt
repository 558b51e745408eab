-- ===== src/Imsg/Decode.antt =====
-- What ReadMessage accepts: the frames of messages within the limit, and nothing else.
use agmux.Base.{
  ℕ, zero, suc, ◌/◌, ◌%◌, ◌^◌, ◌≤◌, ◌<◌, ◌≡◌, refl, ◌∙◌, inl, inr, [], ◌∷◌, ◌++◌, some, Bytes, All,
  length, arith, Option-cases,
}
use agmux.Imsg.{
  Imsg, max_payload_size, version_number, ok, read_full, uint16, uint32, read_message, read_payload,
  finish_read, header_of,
}
use agmux.Imsg.Encode.{frame}

abbrev pub IsByte : ℕ → Type 0
IsByte c = c < 256

read_full_sound :
    (n : ℕ) (r p rest : Bytes) → read_full n r ≡ some (p, rest) → (r ≡ p ++ rest) × (length p ≡ n)
unfolding read_full
read_full_sound zero r p rest h = ground arith
read_full_sound (suc n) [] p rest h = cc
read_full_sound (suc n) (c ∷ r) p rest h = elim (Option-cases (read_full n r)) [
  | inl e ↦ ground (arith, e)
  | inr ((got, rest'), e) ↦ ground (arith, e, read_full_sound n r got rest' e)
]

uint16_bytes : (a b : ℕ) → a < 256 → b < 256 → (uint16 a b / 256 % 256 ≡ a) × (uint16 a b % 256 ≡ b)
unfolding uint16
uint16_bytes a b h k = omega arith

uint32_bytes :
    (a b c d : ℕ)
    → a < 256
    → b < 256
    → c < 256
    → d < 256
    → (uint32 a b c d / 16777216 % 256 ≡ a)
      × (uint32 a b c d / 65536 % 256 ≡ b)
      × (uint32 a b c d / 256 % 256 ≡ c)
      × (uint32 a b c d % 256 ≡ d)
unfolding uint32
uint32_bytes a b c d h k l m = omega arith

uint32-lt : (a b c d : ℕ) → a < 256 → b < 256 → c < 256 → d < 256 → uint32 a b c d < 2 ^ 32
unfolding uint32
uint32-lt a b c d h k l m = omega arith

finish_read_sound :
    (v t n : ℕ) (s rest : Bytes) (m : Imsg)
    → finish_read v t (read_full n s) ≡ ok m rest
    → (m.version ≡ v) × (m.msg_type ≡ t) × (length m.payload ≡ n) × (s ≡ m.payload ++ rest)
finish_read_sound v t n s rest m h = elim (Option-cases (read_full n s)) [
  | inl e ↦ let bad = rw e at h in unfold finish_read in cc bad
  | inr ((p, rest'), e) ↦
      let (split, size) = read_full_sound n s p rest' e in
      let good = rw e at h in unfold finish_read in ground (arith, good, split, size)
]

module _ (v t1 t2 l1 l2 l3 l4 : ℕ) (s rest : Bytes) (m : Imsg) where
  frame_of_parts :
      t1 < 256
      → t2 < 256
      → l1 < 256
      → l2 < 256
      → l3 < 256
      → l4 < 256
      → m.version ≡ v
      → m.msg_type ≡ uint16 t1 t2
      → length m.payload ≡ uint32 l1 l2 l3 l4
      → s ≡ m.payload ++ rest
      → v ∷ t1 ∷ t2 ∷ l1 ∷ l2 ∷ l3 ∷ l4 ∷ s ≡ frame m ++ rest
  unfolding frame header_of
  frame_of_parts h1 h2 h3 h4 h5 h6 ev et el es =
      let small : uint32 l1 l2 l3 l4 % 2 ^ 32 ≡ uint32 l1 l2 l3 l4 =
        omega (arith, uint32-lt l1 l2 l3 l4 h3 h4 h5 h6) in
      let (k1, k2) = uint16_bytes t1 t2 h1 h2 in
      let (n1, n2, n3, n4) = uint32_bytes l1 l2 l3 l4 h3 h4 h5 h6 in
      rw (ev, et, el, small, es) (rw (k1, k2) (rw (n1, n2, n3, n4) refl))

  read_payload_sound :
      read_payload (v ∷ t1 ∷ t2 ∷ l1 ∷ l2 ∷ l3 ∷ l4 ∷ []) s ≡ ok m rest
      → (v ≡ version_number)
        × (uint32 l1 l2 l3 l4 ≤ max_payload_size)
        × (finish_read v (uint16 t1 t2) (read_full (uint32 l1 l2 l3 l4) s) ≡ ok m rest)
  unfolding read_payload
  read_payload_sound h = ground arith

-- An accepted input is the frame of the message that is returned, followed by what is left unread;
-- the message has the supported version and a payload within the limit.
pub read_message_sound :
    (r : Bytes) {rest : Bytes} {m : Imsg}
    → All IsByte r
    → read_message r ≡ ok m rest
    → (r ≡ frame m ++ rest) × (m.version ≡ version_number) × (length m.payload ≤ max_payload_size)
unfolding read_message
read_message_sound (v ∷ t1 ∷ t2 ∷ l1 ∷ l2 ∷ l3 ∷ l4 ∷ s) {rest} {m}
      (b0, (b1, (b2, (b3, (b4, (b5, (b6, bs))))))) h =
    let (ev, fits, done) = read_payload_sound v t1 t2 l1 l2 l3 l4 s rest m h in
    let (mv, mt, ml, ms) = finish_read_sound v (uint16 t1 t2) (uint32 l1 l2 l3 l4) s rest m done in
    (
      frame_of_parts v t1 t2 l1 l2 l3 l4 s rest m b1 b2 b3 b4 b5 b6 mv mt ml ms,
      mv ∙ ev,
      omega arith,
    )
read_message_sound _ bs h = cc
